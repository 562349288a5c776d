-- ===== src/Examples/Ring/Abstract.antt =====
-- The array buffers up to what their programs can read of them.
use distributed_monitor.Base.{
  ℕ, zero, suc, ◌+◌, ◌%◌, ◌≤◌, ◌≡◌, refl, sym, ap, ap₂, ◌∙◌, Bool, true, false, ◌==◌, if◌then◌else◌,
  Option, none, some, [], ◌∷◌, ◌++◌, arith, length, Bytes,
}
use mathlib.Core.HLevel.{Σ_prop, Σ_prop_path, Σ_set, prop→set}
use mathlib.Core.Equiv.{IsEquiv, iso_to_equiv}
use mathlib.Core.Quot
use mathlib.Core.Quot.{Quot, Quot-set}
use native.Mathlib.Bridge.{le_prop}
use distributed_monitor.Examples.Ring.{Ring, max_queue_size, put, get, is_full, is_empty}
use distributed_monitor.Examples.Ring.Refine.{IsValid, window, contents, put_refines, get_refines}

-- Two valid buffers that hold the same bytes, wherever in their arrays.
abbrev pub SameContents : (r : Ring) × IsValid r → (r : Ring) × IsValid r → Type 0
SameContents a b = contents a.0 ≡ contents b.0

abbrev pub Rings : Type 0
Rings = Quot SameContents

abbrev pub Held : Type 0
Held = (l : Bytes) × (length l ≤ max_queue_size)

Bytes_set : IsSet Bytes
Bytes_set = hlevel

pub Held_set : IsSet Held
Held_set = Σ_set Bytes_set (λ l. prop→set le_prop)

pub length-window : (b : Bytes) (i n : ℕ) → length (window b i n) ≡ n
length-window b i zero = refl
length-window b i (suc n) = omega (arith, length-window b ((i + 1) % max_queue_size) n)

abbrev pub held : (r : Ring) × IsValid r → Held
held (r, v) = (contents r, omega (arith, v.count_in, length-window r.buffer r.get_index r.count))

unfoldable pub contents_of : Rings → Held
contents_of = Quot.lift Held_set held (λ a b h. Σ_prop_path (λ l. le_prop) h)

-- The array that begins with the given bytes.
abbrev fill : ℕ → Bytes → Bytes
fill zero l = []
fill (suc n) [] = 0 ∷ fill n []
fill (suc n) (x ∷ l) = x ∷ fill n l

abbrev ring_of : Bytes → Ring
ring_of l = record {
  buffer = fill max_queue_size l;
  get_index = 0;
  put_index = length l % max_queue_size;
  count = length l;
}

length-fill : (n : ℕ) (l : Bytes) → length (fill n l) ≡ n
length-fill zero l = refl
length-fill (suc n) [] = omega (arith, length-fill n [])
length-fill (suc n) (x ∷ l) = omega (arith, length-fill n l)

ring_of-IsValid : (l : Bytes) → length l ≤ max_queue_size → IsValid (ring_of l)
ring_of-IsValid l h = record {
  whole = length-fill max_queue_size l;
  get_in = omega arith;
  count_in = h;
  put_at = omega arith;
}

contents-ring_of : (l : Bytes) → length l ≤ max_queue_size → contents (ring_of l) ≡ l
contents-ring_of [] h = refl
contents-ring_of (a ∷ []) h = refl
contents-ring_of (a ∷ b ∷ []) h = refl
contents-ring_of (a ∷ b ∷ c ∷ []) h = refl
contents-ring_of (a ∷ b ∷ c ∷ d ∷ []) h = refl
contents-ring_of (a ∷ b ∷ c ∷ d ∷ e ∷ []) h = refl
contents-ring_of (a ∷ b ∷ c ∷ d ∷ e ∷ f ∷ l) h = absurd (omega arith)

abbrev rings_of : Held → Rings
rings_of (l, h) = Quot.mk (ring_of l, ring_of-IsValid l h)

-- `produce` where there is room, and nothing where there is none.
put_by : (x : ℕ) (r : Ring) → IsValid r → (b : Bool) → is_full r ≡ b → (r' : Ring) × IsValid r'
put_by x r v true f = (r, v)
put_by x r v false f = (put x r, (put_refines x v f).0)

unfoldable pub put_valid : ℕ → (r : Ring) × IsValid r → (r : Ring) × IsValid r
unfolding put_by
put_valid x (r, v) = put_by x r v (is_full r) refl

-- `consume` where something is held, with what it returns.
get_by :
    (r : Ring) → IsValid r → (b : Bool) → is_empty r ≡ b → Option ℕ × ((r' : Ring) × IsValid r')
get_by r v true f = (none, (r, v))
get_by r v false f = (some (get r).0, ((get r).1, (get_refines v f).0))

unfoldable pub get_valid : (r : Ring) × IsValid r → Option ℕ × ((r : Ring) × IsValid r)
unfolding get_by
get_valid (r, v) = get_by r v (is_empty r) refl

-- A bounded queue of bytes.
abbrev pub enqueue : ℕ → Bytes → Bytes
enqueue x l = if length l == max_queue_size then l else l ++ x ∷ []

abbrev pub first : Bytes → Option ℕ
first [] = none
first (x ∷ l) = some x

abbrev pub rest : Bytes → Bytes
rest [] = []
rest (x ∷ l) = l

is_full-contents : (r : Ring) → is_full r ≡ (length (contents r) == max_queue_size)
unfolding is_full
is_full-contents r = rw (length-window r.buffer r.get_index r.count) refl

put_by-contents :
    (x : ℕ) (r : Ring) (v : IsValid r) (b : Bool) (f : is_full r ≡ b)
    → contents (put_by x r v b f).0 ≡ (if b then contents r else contents r ++ x ∷ [])
unfolding put_by
put_by-contents x r v true f = refl
put_by-contents x r v false f = (put_refines x v f).1

pub put-enqueue :
    (x : ℕ) (a : (r : Ring) × IsValid r) → contents (put_valid x a).0 ≡ enqueue x (contents a.0)
unfolding put_valid
put-enqueue x (r, v) =
    put_by-contents x r v (is_full r) refl
    ∙ ap (λ b. if b then contents r else contents r ++ x ∷ []) (is_full-contents r)

get_by-contents :
    (r : Ring) (v : IsValid r) (b : Bool) (f : is_empty r ≡ b)
    → ((get_by r v b f).0 ≡ first (contents r))
      × (contents (get_by r v b f).1.0 ≡ rest (contents r))
unfolding get_by is_empty
get_by-contents r v true f = ground (arith, f)
get_by-contents r v false f =
    let held_ = (get_refines v f).1 in (sym (ap first held_), sym (ap rest held_))

pub get-rest :
    (a : (r : Ring) × IsValid r)
    → ((get_valid a).0 ≡ first (contents a.0)) × (contents (get_valid a).1.0 ≡ rest (contents a.0))
unfolding get_valid
get-rest (r, v) = get_by-contents r v (is_empty r) refl

-- The operations on buffers up to what they hold.
unfoldable pub put_rings : ℕ → Rings → Rings
unfolding put_valid
put_rings x =
    Quot.lift Quot-set (λ a. Quot.mk (put_valid x a))
      (λ a b h. Quot.sound (put-enqueue x a ∙ ap (enqueue x) h ∙ sym (put-enqueue x b)))

Got_set : IsSet (Option ℕ × Rings)
Got_set = Σ_set (hlevel) (λ o. Quot-set)

unfoldable pub get_rings : Rings → Option ℕ × Rings
unfolding get_valid Got_set
get_rings =
    Quot.lift Got_set (λ a. ((get_valid a).0, Quot.mk (get_valid a).1))
      (λ a b h.
        ap₂ (λ o q. (o, q)) ((get-rest a).0 ∙ ap first h ∙ sym (get-rest b).0)
          (Quot.sound ((get-rest a).1 ∙ ap rest h ∙ sym (get-rest b).1)))

contents_of-IsEquiv : IsEquiv contents_of
unfolding contents_of
contents_of-IsEquiv =
    (iso_to_equiv record {
      fun = contents_of;
      inv = rings_of;
      rinv = λ q. Σ_prop_path (λ l. le_prop) (contents-ring_of q.0 q.1);
      linv =
          Quot.ind (λ q. Quot-set _ _)
            (λ a. Quot.sound (contents-ring_of (contents a.0) (held a).1));
    }).1

contents_of-put_rings :
    (x : ℕ) (q : Rings) → (contents_of (put_rings x q)).0 ≡ enqueue x (contents_of q).0
unfolding contents_of put_rings
contents_of-put_rings x = Quot.ind (λ q. Bytes_set _ _) (put-enqueue x)

Option_set : IsSet (Option ℕ)
Option_set = hlevel

contents_of-get_rings :
    (q : Rings)
    → ((get_rings q).0 ≡ first (contents_of q).0)
      × ((contents_of (get_rings q).1).0 ≡ rest (contents_of q).0)
unfolding contents_of get_rings
contents_of-get_rings = Quot.ind (λ q. Σ_prop (Option_set _ _) (λ e. Bytes_set _ _)) get-rest

-- The array buffer is a bounded queue. The valid buffers, where those that hold the same bytes in the
-- same order count as one, are equivalent to the lists of at most five bytes, by what a buffer holds.
-- By this equivalence `produce` where there is room adds its byte at the end, and a full buffer stays;
-- `consume` where there is something takes the first byte and returns it, and an empty buffer stays.
pub contents_of-IsEquiv_queue :
    IsEquiv contents_of
    × ((x : ℕ) (q : Rings) → (contents_of (put_rings x q)).0 ≡ enqueue x (contents_of q).0)
    × ((q : Rings)
        → ((get_rings q).0 ≡ first (contents_of q).0)
          × ((contents_of (get_rings q).1).0 ≡ rest (contents_of q).0))
contents_of-IsEquiv_queue = (contents_of-IsEquiv, contents_of-put_rings, contents_of-get_rings)
