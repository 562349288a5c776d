-- ===== src/Exclusion/Network.antt =====
-- What a step adds to a channel, and what the packets of the algorithm weigh.
use distributed_monitor.Base.{
  ℕ, zero, suc, ◌+◌, ◌≤◌, ◌<◌, ◌≡◌, ◌≢◌, inl, inr, refl, ◌&&◌, List, [], ◌∷◌, ◌++◌, map, append-nil,
  append_assoc, arith, ◌==◌, if◌then◌else◌, count, All, Bool-cases,
}
use distributed_monitor.Communication.Packet.{Packet}
use distributed_monitor.Communication.Clock.{other_ids, Delivery}
use distributed_monitor.Exclusion.System.{post}

-- The packets that go to one process.
abbrev pub sent_to : ℕ → List Delivery → List Packet
sent_to b [] = []
sent_to b (d ∷ ds) = if b == d.to then d.packet ∷ sent_to b ds else sent_to b ds

abbrev pub spread : Packet → List ℕ → List Delivery
spread p = map (λ r. record { to = r; packet = p })

post_self :
    (i b : ℕ) (out : List Delivery) (f : ℕ → ℕ → List Packet)
    → post f i out i b ≡ f i b ++ sent_to b out
post_self i b [] f = rw append-nil
post_self i b (d ∷ ds) f =
    let g : ℕ → ℕ → List Packet =
      λ x y. if (x == i && y == d.to) then f x y ++ d.packet ∷ [] else f x y in
    ground (arith, post_self i b ds g, append_assoc (f i b) (d.packet ∷ []) (sent_to b ds))

post-ne :
    (i a b : ℕ) (out : List Delivery) (f : ℕ → ℕ → List Packet) → a ≢ i → post f i out a b ≡ f a b
post-ne i a b [] f h = refl
post-ne i a b (d ∷ ds) f h =
    let g : ℕ → ℕ → List Packet =
      λ x y. if (x == i && y == d.to) then f x y ++ d.packet ∷ [] else f x y in
    ground (arith, post-ne i a b ds g h)

pub post_lem :
    (i a b : ℕ) (out : List Delivery) (f : ℕ → ℕ → List Packet)
    → post f i out a b ≡ (if a == i then f a b ++ sent_to b out else f a b)
post_lem i a b out f = ground (arith, post_self i b out f, post-ne i a b out f)

sent_to-spread_below :
    (p : Packet) (rounds id me b : ℕ) → b < id → sent_to b (spread p (other_ids rounds id me)) ≡ []
unfolding other_ids
sent_to-spread_below p zero id me b h = refl
sent_to-spread_below p (suc rounds) id me b h =
    ground (arith, sent_to-spread_below p rounds (id + 1) me b)

sent_to-spread_from :
    (p : Packet) (rounds id me b : ℕ)
    → id ≤ b
    → b < id + rounds
    → b ≢ me
    → sent_to b (spread p (other_ids rounds id me)) ≡ p ∷ []
unfolding other_ids
sent_to-spread_from p zero id me b lo hi h = absurd (omega arith)
sent_to-spread_from p (suc rounds) id me b lo hi h =
    ground (
      arith,
      sent_to-spread_from p rounds (id + 1) me b,
      sent_to-spread_below p rounds (id + 1) me b,
    )

-- `sendOthers` sends one packet to each other process.
pub sent_to-spread :
    (p : Packet) (n me b : ℕ) → b < n → b ≢ me → sent_to b (spread p (other_ids n 0 me)) ≡ p ∷ []
sent_to-spread p n me b lt ne = sent_to-spread_from p n 0 me b (omega arith) (omega arith) ne

pub count-sent_to-spread :
    (w : Packet → ℕ) (b : ℕ) (p : Packet) (rs : List ℕ)
    → w p ≡ 0
    → count w (sent_to b (spread p rs)) ≡ 0
count-sent_to-spread w b p [] e = refl
count-sent_to-spread w b p (r ∷ rs) e = ground (arith, count-sent_to-spread w b p rs e, e)

pub All-sent_to {ℓ} :
    (P : Packet → Type ℓ) (b : ℕ) (out : List Delivery)
    → All (λ d. P d.packet) out
    → All P (sent_to b out)
All-sent_to P b [] h = tt
All-sent_to P b (d ∷ ds) h = elim (Bool-cases (b == d.to)) [
  | inl e ↦ rw e (h.0, All-sent_to P b ds h.1)
  | inr e ↦ rw e (All-sent_to P b ds h.1)
]

pub All-mono {ℓ κ μ} :
    {A : Type ℓ} (P : A → Type κ) (Q : A → Type μ) (l : List A)
    → ((a : A) → P a → Q a)
    → All P l
    → All Q l
All-mono P Q [] f h = tt
All-mono P Q (x ∷ l) f h = (f x h.0, All-mono P Q l f h.1)

pub count_mono {ℓ} :
    {A : Type ℓ} (v w : A → ℕ) (l : List A) → ((a : A) → v a ≤ w a) → count v l ≤ count w l
count_mono v w [] h = omega arith
count_mono v w (x ∷ l) h = omega (arith, h x, count_mono v w l h)
