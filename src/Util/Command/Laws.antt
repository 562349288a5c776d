-- ===== src/Util/Command/Laws.antt =====
-- What is captured of the output of a command.
use distributed_monitor.Base.{
  ℕ, zero, suc, ◌+◌, ◌*◌, ◌/◌, ◌%◌, ◌^◌, ◌≤◌, ◌<◌, ◌≡◌, ◌≢◌, refl, sym, ap, subst, ◌∙◌, true, false,
  [], ◌∷◌, ◌++◌, append-nil, append_assoc, Option, some, arith, ltb, if◌then◌else◌, length,
  length-append, All, All-append, Bool-cases, inl, inr, Bytes,
}
use distributed_monitor.Util.Print.{digits, to_string, value_from, value-to_string}
use distributed_monitor.Util.Command.{
  Pipe, read_line, c_string, append_line, capture, opened, exec_and_capture_std_out, is_digit,
  skip_spaces, leading_digits, value, stoi, exec_and_capture_pid,
}

read_line-append : (k : ℕ) (s : Bytes) → (read_line k s).0 ++ (read_line k s).1.rest ≡ s
unfolding read_line
read_line-append zero s = refl
read_line-append (suc k) [] = refl
read_line-append (suc k) (c ∷ s) = ground (arith, read_line-append k s)

read_line-eof : (k : ℕ) (s : Bytes) → (read_line k s).1.eof ≡ true → (read_line k s).1.rest ≡ []
unfolding read_line
read_line-eof zero s h = absurd (cc)
read_line-eof (suc k) [] h = refl
read_line-eof (suc k) (c ∷ s) h = ground (arith, h, read_line-eof k s)

-- A read that does not meet the end takes a byte.
read_line-shorter :
    (k : ℕ) (s : Bytes)
    → (read_line (suc k) s).1.eof ≡ false
    → length (read_line (suc k) s).1.rest < length s
unfolding read_line
read_line-shorter k [] h = absurd (cc)
read_line-shorter k (c ∷ s) h = ground (
  arith,
  length-append (read_line k s).0 (read_line k s).1.rest,
  ap (length {A = ℕ}) (read_line-append k s),
)

abbrev HasNoZero : Bytes → Type 0
HasNoZero s = All (λ c. c ≢ 0) s

c_string-same : (s : Bytes) → HasNoZero s → c_string s ≡ s
unfolding c_string
c_string-same [] h = refl
c_string-same (c ∷ s) h = ground (arith, h.0, c_string-same s h.1)

append-HasNoZero : (s t : Bytes) → HasNoZero (s ++ t) → HasNoZero s × HasNoZero t
append-HasNoZero [] t h = (tt, h)
append-HasNoZero (c ∷ s) t h = let r = append-HasNoZero s t h.1 in ((h.0, r.0), r.1)

-- After a read, fewer rounds are enough.
rounds-read_line :
    (k rounds : ℕ) (s : Bytes)
    → length s + 1 < suc rounds
    → length (read_line (suc k) s).1.rest + (if (read_line (suc k) s).1.eof then 0 else 1) < rounds
rounds-read_line k rounds s h = elim (Bool-cases (read_line (suc k) s).1.eof) [
  | inl e ↦ rw (e, read_line-eof (suc k) s e) (omega (arith, h))
  | inr e ↦ rw e (omega (arith, h, read_line-shorter k s e))
]

-- What is read and what is left are what there was.
joined-read_line :
    (k : ℕ) (result s : Bytes)
    → HasNoZero s
    → (HasNoZero (read_line k s).1.rest)
      × ((result ++ c_string (read_line k s).0) ++ (read_line k s).1.rest ≡ result ++ s)
joined-read_line k result s h =
    let whole = read_line-append k s in
    let both =
      append-HasNoZero (read_line k s).0 (read_line k s).1.rest (subst HasNoZero (sym whole) h) in
    (
      both.1,
      rw (c_string-same (read_line k s).0 both.0) (
          append_assoc result (read_line k s).0 (read_line k s).1.rest
          ∙ ap (λ z. result ++ z) whole),
    )

capture-all :
    (rounds : ℕ) (pipe : Pipe) (result : Bytes)
    → (pipe.eof ≡ true → pipe.rest ≡ [])
    → HasNoZero pipe.rest
    → length pipe.rest + (if pipe.eof then 0 else 1) < rounds
    → capture rounds pipe result ≡ some (result ++ pipe.rest)
unfolding capture append_line
capture-all zero pipe result ended h lt = absurd (omega arith)
capture-all (suc rounds) pipe result ended h lt = elim (Bool-cases pipe.eof) [
  | inl e ↦ rw (e, ended e) (ap some (sym (append-nil result)))
  | inr e ↦
      let joined = joined-read_line 127 result pipe.rest h in
      rw e (
        capture-all rounds (read_line 127 pipe.rest).1
          (result ++ c_string (read_line 127 pipe.rest).0) (read_line-eof 127 pipe.rest) joined.0
          (rounds-read_line 126 rounds pipe.rest (rw e at lt))
        ∙ ap some joined.1)
]

-- The output of a command is captured whole, if no zero byte is in it: the loop comes to its end, and
-- neither the length of the lines nor a last line without a newline matters.
pub exec_and_capture_std_out-all :
    (popen : Bytes → Option Bytes) (command output : Bytes)
    → popen command ≡ some output
    → All (λ c. c ≢ 0) output
    → exec_and_capture_std_out popen command ≡ some output
unfolding exec_and_capture_std_out
exec_and_capture_std_out-all popen command output e h =
    rw (exec_and_capture_std_out, e)
      (capture-all (length output + 2) (opened output) [] (λ z. absurd (cc)) h (omega arith))

abbrev IsNumber : Bytes → Type 0
IsNumber s = All (λ c. is_digit c ≡ true) s

abbrev power : ℕ → ℕ
power zero = 1
power (suc d) = 10 * power d

below-ltb : (n : ℕ) → n < power 1 → ltb n 10 ≡ true
below-ltb n h = ground (arith, h)

digits-IsNumber : (d n : ℕ) → IsNumber (digits d n)
unfolding digits
digits-IsNumber zero n = tt
digits-IsNumber (suc d) n = elim (Bool-cases (ltb n 10)) [
  | inl e ↦ rw e (ground (arith, e), tt)
  | inr e ↦ rw e (
      All-append (λ c. is_digit c ≡ true) (digits d (n / 10)) ((n % 10 + 48) ∷ [])
        (digits-IsNumber d (n / 10)) (ground arith, tt))
]

-- A number below 10 ^ k has at most `k` digits, and at least one.
length-digits_le : (d k n : ℕ) → n < power (suc k) → length (digits d n) ≤ suc k
unfolding digits
length-digits_le zero k n h = omega arith
length-digits_le (suc d) zero n h = rw (below-ltb n h) (omega arith)
length-digits_le (suc d) (suc k) n h = elim (Bool-cases (ltb n 10)) [
  | inl e ↦ rw e (omega arith)
  | inr e ↦ rw e (
      omega (
        arith,
        length-append (digits d (n / 10)) ((n % 10 + 48) ∷ []),
        length-digits_le d k (n / 10) (omega (arith, h)),
      ))
]

length-digits_pos : (d n : ℕ) → 0 < length (digits (suc d) n)
unfolding digits
length-digits_pos d n = ground (arith, length-append (digits d (n / 10)) ((n % 10 + 48) ∷ []))

IsNumber-HasNoZero : (s : Bytes) → IsNumber s → HasNoZero s
IsNumber-HasNoZero [] h = tt
IsNumber-HasNoZero (c ∷ s) h = (ground (arith, h.0), IsNumber-HasNoZero s h.1)

-- A line that a number stands in.
read_line-number :
    (k : ℕ) (s t : Bytes) → IsNumber s → length s < k → (read_line k (s ++ 10 ∷ t)).0 ≡ s ++ 10 ∷ []
unfolding read_line
read_line-number zero s t h lt = absurd (omega arith)
read_line-number (suc k) [] t h lt = refl
read_line-number (suc k) (c ∷ s) t h lt = ground (arith, h.0, read_line-number k s t h.1)

leading_digits-number : (s : Bytes) → IsNumber s → leading_digits (s ++ 10 ∷ []) ≡ s
unfolding leading_digits
leading_digits-number [] h = refl
leading_digits-number (c ∷ s) h = ground (arith, h.0, leading_digits-number s h.1)

stoi-number :
    (s : Bytes)
    → IsNumber s
    → 0 < length s
    → value_from 0 s < 2 ^ 31
    → stoi (s ++ 10 ∷ []) ≡ value false (value_from 0 s)
unfolding stoi skip_spaces
stoi-number [] h some_ lt = absurd (omega arith)
stoi-number (c ∷ s) h some_ lt =
    let number = leading_digits-number (c ∷ s) h in ground (arith, h.0, number, lt)

-- The number of a process that a command prints on its first line is what is captured.
pub exec_and_capture_pid-to_string :
    (popen : Bytes → Option Bytes) (command rest : Bytes) (pid : ℕ)
    → pid < 2 ^ 31
    → popen command ≡ some (to_string pid ++ 10 ∷ rest)
    → exec_and_capture_pid popen command ≡ some (value false pid)
unfolding exec_and_capture_pid append_line to_string
exec_and_capture_pid-to_string popen command rest pid lt e =
    let number = digits-IsNumber 20 pid in
    let small = length-digits_le 20 9 pid (omega (arith, lt)) in
    let read = read_line-number 20 (digits 20 pid) rest number (omega (arith, small)) in
    let same = c_string-same (digits 20 pid ++ 10 ∷ []) (
      All-append (λ c. c ≢ 0) (digits 20 pid) (10 ∷ []) (IsNumber-HasNoZero (digits 20 pid) number)
        ((λ z. absurd (omega (arith, z))), tt)) in
    let again = value-to_string pid (omega (arith, lt)) in
    rw (exec_and_capture_pid, e, append_line, read, same)
      (ap some (
        stoi-number (digits 20 pid) number (length-digits_pos 19 pid) (rw again lt)
        ∙ ap (value false) again))
