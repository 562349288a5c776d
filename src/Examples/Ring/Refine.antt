-- ===== src/Examples/Ring/Refine.antt =====
-- The array buffer is a queue of at most five bytes.
use distributed_monitor.Base.{
  ℕ, zero, suc, ◌+◌, ◌-◌, ◌%◌, ◌^◌, ◌≤◌, ◌<◌, ◌≡◌, ◌≢◌, refl, ap, ◌∙◌, false, [], ◌∷◌, ◌++◌,
  append-nil, arith, ◌==◌, length, get_or, set, length-set, take_all, drop_all, if◌then◌else◌,
  Bytes,
}
use distributed_monitor.Examples.Ring.{
  Ring, max_queue_size, save_state, restore_state, is_full, is_empty, put, get,
}

pub record IsValid (r : Ring) : Type 0 where
  pub whole : length r.buffer ≡ max_queue_size
  pub get_in : r.get_index < max_queue_size
  pub count_in : r.count ≤ max_queue_size
  pub put_at : r.put_index ≡ (r.get_index + r.count) % max_queue_size

-- The `n` bytes from index `i` on, round the array.
abbrev pub window : Bytes → ℕ → ℕ → Bytes
window buffer i zero = []
window buffer i (suc n) = get_or buffer i 0 ∷ window buffer ((i + 1) % max_queue_size) n

abbrev pub contents : Ring → Bytes
contents r = window r.buffer r.get_index r.count

get_or-set :
    (b : Bytes) (i j v : ℕ)
    → i < length b
    → get_or (set b i v) j 0 ≡ (if i == j then v else get_or b j 0)
get_or-set [] i j v h = absurd (omega arith)
get_or-set (x ∷ b) zero zero v h = refl
get_or-set (x ∷ b) zero (suc j) v h = ground arith
get_or-set (x ∷ b) (suc i) zero v h = ground arith
get_or-set (x ∷ b) (suc i) (suc j) v h = ground (arith, get_or-set b i j v)

-- A byte written just past a window that does not fill the array extends it.
window-set :
    (b : Bytes) (x n i k : ℕ)
    → length b ≡ max_queue_size
    → i < max_queue_size
    → n < max_queue_size
    → k ≡ (i + n) % max_queue_size
    → window (set b k x) i (suc n) ≡ window b i n ++ x ∷ []
window-set b x zero i k hb hi hn e = ground (arith, get_or-set b k i x (omega arith))
window-set b x (suc n) i k hb hi hn e = ground (
  arith,
  get_or-set b k i x (omega arith),
  window-set b x n ((i + 1) % max_queue_size) k hb (omega arith) (omega arith) (omega arith),
)

-- What `produce` does to a buffer that is not full: it stays valid, and the byte joins the end.
pub put_refines :
    (request : ℕ) {r : Ring}
    → IsValid r
    → is_full r ≡ false
    → IsValid (put request r) × (contents (put request r) ≡ contents r ++ request ∷ [])
unfolding put is_full
put_refines request {r} v f =
    let below : r.count < max_queue_size = ground arith in
    let wrote =
      window-set r.buffer request r.count r.get_index r.put_index v.whole v.get_in below v.put_at in
    (ground (arith, length-set r.buffer r.put_index request), next wrote (omega arith))
  where
    next :
        window (set r.buffer r.put_index request) r.get_index (suc r.count)
          ≡ contents r ++ request ∷ []
        → (r.count + 1) % 2 ^ 8 ≡ suc r.count
        → window (set r.buffer r.put_index request) r.get_index ((r.count + 1) % 2 ^ 8)
          ≡ contents r ++ request ∷ []
    next e h = rw h e

window-pos :
    (b : Bytes) (i n : ℕ)
    → n ≢ 0
    → window b i n ≡ get_or b i 0 ∷ window b ((i + 1) % max_queue_size) (n - 1)
window-pos b i zero h = absurd (h refl)
window-pos b i (suc n) h = ap (λ k. window b i (suc k)) (omega arith)

-- What `consume` does to a buffer that is not empty: it stays valid, and the byte returned was the
-- first.
pub get_refines :
    {r : Ring}
    → IsValid r
    → is_empty r ≡ false
    → IsValid (get r).1 × (contents r ≡ (get r).0 ∷ contents (get r).1)
unfolding get is_empty
get_refines {r} v f =
    let some_ : r.count ≢ 0 = ground arith in
    (ground arith, window-pos r.buffer r.get_index r.count some_ ∙ next (omega (arith, some_)))
  where
    next :
        r.count - 1 ≡ (r.count + 255) % 2 ^ 8
        → get_or r.buffer r.get_index 0
            ∷ window r.buffer ((r.get_index + 1) % max_queue_size) (r.count - 1)
          ≡ (get r).0 ∷ contents (get r).1
    next h =
        ap
          (λ k.
            get_or r.buffer r.get_index 0 ∷ window r.buffer ((r.get_index + 1) % max_queue_size) k)
          h

-- A process with a valid buffer that restores what another valid buffer saved has the very same
-- buffer as that other.
pub restore-save :
    (r other : Ring) → IsValid r → IsValid other → restore_state (save_state r) other ≡ r
unfolding restore_state save_state
restore-save r other v w = ground (
  arith,
  take_all max_queue_size r.buffer (omega (arith, v.whole)),
  drop_all (length r.buffer) other.buffer (omega (arith, v.whole, w.whole)),
  append-nil r.buffer,
)
