-- ===== src/Util/Print.antt =====
-- `printContainer` of util/Utils.h, `Logger::getFormattedNumber` of logging/Logger.cpp over the
-- decimal `std::to_string`, and the texts of packets of util/Define.h and CommunicationManager.h.
use distributed_monitor.Base.{
  ℕ, zero, suc, ◌+◌, ◌-◌, ◌*◌, ◌/◌, ◌%◌, ◌^◌, ◌≤◌, ◌<◌, ◌≡◌, refl, ap, ◌∙◌, List, [], ◌∷◌, ◌++◌,
  append_assoc, append-nil, sym, arith, ltb, if◌then◌else◌, length, length-append, Bytes,
}
use distributed_monitor.Communication.Packet.{
  MessageType, mutex_request, mutex_agreement, cond_wait, cond_wait_end, cond_wait_end_confirm,
  cond_notify, sync, other,
}

-- The decimal digits of a number of at most `d` digits.
unfoldable pub digits : ℕ → ℕ → Bytes
digits zero n = []
digits (suc d) n =
    let front = digits d (n / 10) in if ltb n 10 then (n + 48) ∷ [] else front ++ (n % 10 + 48) ∷ []

-- `std::to_string` of an `unsigned long`, which has at most 20 digits.
unfoldable pub to_string : ℕ → Bytes
unfolding digits
to_string n = digits 20 n

-- The number that digits stand for.
abbrev pub value_from : ℕ → Bytes → ℕ
value_from v [] = v
value_from v (c ∷ s) = value_from (v * 10 + (c - 48)) s

abbrev pub zeros : ℕ → Bytes
zeros zero = []
zeros (suc k) = 48 ∷ zeros k

-- LOGGER_NUMBER_DIGITS
abbrev pub logger_number_digits : ℕ
logger_number_digits = 7

unfoldable pub pad : Bytes → Bytes
pad s =
    if ltb (length s) logger_number_digits then zeros (logger_number_digits - length s) ++ s else s

abbrev pub get_formatted_number : ℕ → Bytes
get_formatted_number n = pad (to_string n)

-- The loop of `printContainer` over all but the first element.
unfoldable pub print_rest : List ℕ → Bytes
print_rest [] = []
print_rest (x ∷ xs) = 44 ∷ (to_string x ++ print_rest xs)

unfoldable pub print_container : List ℕ → Bytes
unfolding print_rest
print_container [] = 123 ∷ 125 ∷ []
print_container (x ∷ []) = 123 ∷ (to_string x ++ 125 ∷ [])
print_container (x ∷ y ∷ ys) = 123 ∷ (to_string x ++ (print_rest (y ∷ ys) ++ 125 ∷ []))

-- `messageTypeString[t]`; a value without a name has no entry, and gets an empty one.
unfoldable pub type_string : MessageType → Bytes
type_string mutex_request = 77 ∷ 85 ∷ 84 ∷ 69 ∷ 88 ∷ 95 ∷ 82 ∷ 69 ∷ 81 ∷ 85 ∷ 69 ∷ 83 ∷ 84 ∷ []
type_string mutex_agreement =
    77 ∷ 85 ∷ 84 ∷ 69 ∷ 88 ∷ 95 ∷ 65 ∷ 71 ∷ 82 ∷ 69 ∷ 69 ∷ 77 ∷ 69 ∷ 78 ∷ 84 ∷ []
type_string cond_wait = 67 ∷ 79 ∷ 78 ∷ 68 ∷ 95 ∷ 87 ∷ 65 ∷ 73 ∷ 84 ∷ []
type_string cond_wait_end = 67 ∷ 79 ∷ 78 ∷ 68 ∷ 95 ∷ 87 ∷ 65 ∷ 73 ∷ 84 ∷ 95 ∷ 69 ∷ 78 ∷ 68 ∷ []
type_string cond_wait_end_confirm =
    67 ∷ 79 ∷ 78 ∷ 68 ∷ 95 ∷ 87 ∷ 65 ∷ 73 ∷ 84 ∷ 95 ∷ 69 ∷ 78 ∷ 68 ∷ 95 ∷ 67 ∷ 79 ∷ 78 ∷ 70 ∷ 73
    ∷ 82 ∷ 77 ∷ []
type_string cond_notify = 67 ∷ 79 ∷ 78 ∷ 68 ∷ 95 ∷ 78 ∷ 79 ∷ 84 ∷ 73 ∷ 70 ∷ 89 ∷ []
type_string sync = 83 ∷ 89 ∷ 78 ∷ 67 ∷ []
type_string (other c) = []

-- "[messageType: " and ", message: "
abbrev pub type_label : Bytes
type_label = 91 ∷ 109 ∷ 101 ∷ 115 ∷ 115 ∷ 97 ∷ 103 ∷ 101 ∷ 84 ∷ 121 ∷ 112 ∷ 101 ∷ 58 ∷ 32 ∷ []

abbrev pub message_label : Bytes
message_label = 44 ∷ 32 ∷ 109 ∷ 101 ∷ 115 ∷ 115 ∷ 97 ∷ 103 ∷ 101 ∷ 58 ∷ 32 ∷ []

unfoldable pub print_packet : MessageType → Bytes → Bytes
unfolding type_string
print_packet t message = type_label ++ (type_string t ++ (message_label ++ (message ++ 93 ∷ [])))

value-append : (v : ℕ) (s t : Bytes) → value_from v (s ++ t) ≡ value_from (value_from v s) t
value-append v [] t = refl
value-append v (c ∷ s) t = value-append (v * 10 + (c - 48)) s t

abbrev power : ℕ → ℕ
power zero = 1
power (suc d) = 10 * power d

value-digits : (d n : ℕ) → n < power d → value_from 0 (digits d n) ≡ n
unfolding digits
value-digits zero n h = omega arith
value-digits (suc d) n h =
    ground (arith, value-append 0 (digits d (n / 10)) ((n % 10 + 48) ∷ []), value-digits d (n / 10))

pub value-to_string : (n : ℕ) → n < 2 ^ 64 → value_from 0 (to_string n) ≡ n
unfolding to_string
value-to_string n h = value-digits 20 n (omega arith)

value-zeros : (k : ℕ) (s : Bytes) → value_from 0 (zeros k ++ s) ≡ value_from 0 s
value-zeros zero s = refl
value-zeros (suc k) s = value-zeros k s

length-zeros : (k : ℕ) → length (zeros k) ≡ k
length-zeros zero = refl
length-zeros (suc k) = ap suc (length-zeros k)

-- A formatted number of 64 bits reads back as the number, and has at least seven digits.
pub value-get_formatted_number :
    (n : ℕ)
    → n < 2 ^ 64
    → (value_from 0 (get_formatted_number n) ≡ n)
      × (logger_number_digits ≤ length (get_formatted_number n))
value-get_formatted_number n h = formatted (to_string n) (value-to_string n h)
  where
    formatted :
        (s : Bytes)
        → value_from 0 s ≡ n
        → (value_from 0 (pad s) ≡ n) × (logger_number_digits ≤ length (pad s))
    formatted s e =
        unfold pad in
        ground (
          arith,
          value-zeros (logger_number_digits - length s) s,
          length-zeros (logger_number_digits - length s),
          length-append (zeros (logger_number_digits - length s)) s,
        )

-- `x1,x2,…,xn`
abbrev pub join : List ℕ → Bytes
join [] = []
join (x ∷ []) = to_string x
join (x ∷ y ∷ ys) = to_string x ++ (44 ∷ join (y ∷ ys))

print_rest-join : (x : ℕ) (xs : List ℕ) → to_string x ++ print_rest xs ≡ join (x ∷ xs)
unfolding print_rest
print_rest-join x [] = append-nil (to_string x)
print_rest-join x (y ∷ ys) = ap (λ s. to_string x ++ (44 ∷ s)) (print_rest-join y ys)

-- A container prints as its elements between braces, with a comma between each two of them.
pub print_container-join : (xs : List ℕ) → print_container xs ≡ 123 ∷ (join xs ++ 125 ∷ [])
unfolding print_container
print_container-join [] = refl
print_container-join (x ∷ []) = refl
print_container-join (x ∷ y ∷ ys) = ap (◌∷◌ 123) (
    sym (append_assoc (to_string x) (print_rest (y ∷ ys)) (125 ∷ []))
    ∙ ap (λ s. s ++ 125 ∷ []) (print_rest-join x (y ∷ ys)))
