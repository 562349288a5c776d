-- ===== src/Util/Command.antt =====
-- `execAndCaptureStdOut` of src/util/Utils.h and src/util/MultiprocessDebugHelper.cpp: the output of a
-- command, read from its pipe. The shell is a parameter, `popen`: what a command writes until it
-- ends, or `none` where no pipe can be opened.
pub mod Laws
use distributed_monitor.Base.{
  ℕ, zero, suc, ◌+◌, ◌-◌, ◌^◌, Bool, true, false, ◌&&◌, ◌||◌, List, [], ◌∷◌, ◌++◌, Option, none,
  some, ltb, leb, ◌==◌, if◌then◌else◌, length, Bytes,
}
use distributed_monitor.Util.Print.{to_string, value_from}

-- A pipe: what is still to be read, and the flag that `feof` reads.
pub record Pipe : Type 0 where
  pub rest : Bytes
  pub eof : Bool

-- The bytes up to the first newline, at most so many.
unfoldable pub read_line : ℕ → Bytes → Bytes × Pipe
read_line zero s = ([], record { rest = s; eof = false })
read_line (suc k) [] = ([], record { rest = []; eof = true })
read_line (suc k) (c ∷ s) =
    let (line, pipe) = read_line k s in
    if c == 10 then (c ∷ [], record { rest = s; eof = false }) else (c ∷ line, pipe)

-- What the buffer holds after `fgets`, read as a C string: up to the first zero byte.
unfoldable pub c_string : Bytes → Bytes
c_string [] = []
c_string (c ∷ s) = let rest = c_string s in if c == 0 then [] else c ∷ rest

-- `if (fgets(buffer, size, pipe) != nullptr) result += buffer`
unfoldable pub append_line : ℕ → Pipe → Bytes → Bytes × Pipe
unfolding read_line c_string
append_line size pipe result =
    let (line, pipe') = read_line (size - 1) pipe.rest in (result ++ c_string line, pipe')

-- The loop, over the rounds that are left; `none` is that they have run out.
unfoldable pub capture : ℕ → Pipe → Bytes → Option Bytes
unfolding append_line
capture zero pipe result = none
capture (suc rounds) pipe result =
    let (result', pipe') = append_line 128 pipe result in
    let more = capture rounds pipe' result' in if pipe.eof then some result else more

abbrev pub opened : Bytes → Pipe
opened output = record { rest = output; eof = false }

-- `none` is the exception.
unfoldable pub exec_and_capture_std_out : (Bytes → Option Bytes) → Bytes → Option Bytes
unfolding capture
exec_and_capture_std_out popen command = elim (popen command) [
  | none ↦ none
  | some output ↦ capture (length output + 2) (opened output) []
]

-- `isspace`
abbrev pub is_space : ℕ → Bool
is_space c = c == 32 || (leb 9 c && leb c 13)

abbrev pub is_digit : ℕ → Bool
is_digit c = leb 48 c && leb c 57

unfoldable pub skip_spaces : Bytes → Bytes
skip_spaces [] = []
skip_spaces (c ∷ s) = let rest = skip_spaces s in if is_space c then rest else c ∷ s

unfoldable pub leading_digits : Bytes → Bytes
leading_digits [] = []
leading_digits (c ∷ s) = let rest = leading_digits s in if is_digit c then c ∷ rest else []

-- How `std::stoi` ends: with one of its exceptions, or with an `int` as its sign and its size.
pub data Stoi : Type 0 where
  invalid_argument out_of_range : Stoi
  value : Bool → ℕ → Stoi

abbrev in_range : Bool → Bytes → Stoi
in_range negative [] = invalid_argument
in_range negative (c ∷ s) =
    let size = value_from 0 (c ∷ s) in
    if leb size (if negative then 2 ^ 31 else 2 ^ 31 - 1) then value negative size else out_of_range

abbrev signed : Bytes → Stoi
signed [] = invalid_argument
signed (c ∷ s) =
    if c == 45
    then in_range true (leading_digits s)
    else in_range false (leading_digits (if c == 43 then s else c ∷ s))

unfoldable pub stoi : Bytes → Stoi
unfolding skip_spaces leading_digits
stoi s = signed (skip_spaces s)

-- The size of the buffer is 21. `none` is the exception of a pipe that cannot be opened.
unfoldable pub exec_and_capture_pid : (Bytes → Option Bytes) → Bytes → Option Stoi
unfolding append_line stoi
exec_and_capture_pid popen command = elim (popen command) [
  | none ↦ none
  | some output ↦ some (stoi (append_line 21 (opened output) []).0)
]
