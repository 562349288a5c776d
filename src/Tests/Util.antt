-- ===== src/Tests/Util.antt =====
-- Inputs for util/ and logging/.
use distributed_monitor.Base.{◌≡◌, refl, true, false, [], ◌∷◌, ◌++◌, Option, some, Bytes}
use distributed_monitor.Util.Print.{to_string, digits}
use distributed_monitor.Util.Command.{
  value, invalid_argument, out_of_range, read_line, c_string, append_line, capture, skip_spaces,
  leading_digits, stoi, exec_and_capture_std_out, exec_and_capture_pid,
}

-- A shell that prints the number 4711 and a second line.
abbrev shell : Bytes → Option Bytes
unfolding to_string digits
shell command = some (to_string 4711 ++ 10 ∷ 33 ∷ [])

pid_captured : exec_and_capture_pid shell [] ≡ some (value false 4711)
unfolding exec_and_capture_pid append_line read_line c_string stoi skip_spaces leading_digits
    to_string digits
pid_captured = refl

output_captured : exec_and_capture_std_out shell [] ≡ some (to_string 4711 ++ 10 ∷ 33 ∷ [])
unfolding exec_and_capture_std_out capture append_line read_line c_string to_string digits
output_captured = refl

-- " -12x", "+" and "2147483648"
negative_number : stoi (32 ∷ 45 ∷ 49 ∷ 50 ∷ 120 ∷ []) ≡ value true 12
unfolding stoi skip_spaces leading_digits
negative_number = refl

no_number : stoi (43 ∷ []) ≡ invalid_argument
unfolding stoi skip_spaces leading_digits
no_number = refl

large_number : stoi (50 ∷ 49 ∷ 52 ∷ 55 ∷ 52 ∷ 56 ∷ 51 ∷ 54 ∷ 52 ∷ 56 ∷ []) ≡ out_of_range
unfolding stoi skip_spaces leading_digits
large_number = refl
