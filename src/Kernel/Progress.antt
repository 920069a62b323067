-- ===== src/Kernel/Progress.antt =====
-- kernel/command.h: the loop of `bius_send_data` sends something wherever there is something to send.
use bius.Kernel.{BioApi, ℕ, Bool}
use bius.Kernel.Transfer.{Sending, send_bio, send_loop, send_piece}
use bius.Kernel.Sending.{Balanced, send_bio-Balanced, chain_contents}
use bius.Base.{
  ℕ, Bool, length, List, ◌<◌, ◌≤◌, ◌⊎◌, ◌≡◌, u64_mod, true, Ensures, suc, Bool-cases, ◌==◌, inl,
  arith, length-append, take, length-take_of_le, inr, ==-cases, if◌then◌else◌, ap, ◌+◌, [], ltb,
  some, ltb-cases, ◌∷◌, Ensures-bind, Ensures-mono, refl, Ensures-and,
}
use Prim.Native.Nat.{zero}
use mathlib.Core.Bool.{false}

-- One turn sends bytes, or it only steps over a bio that has none left.
abbrev pub Moves : {Bio : Type 0} → Sending Bio → Bool × Sending Bio → Type 0
Moves s r =
    (length s.sent < length r.1.sent)
    ⊎ (r.0 ≡ true
        × (length r.1.sent ≡ length s.sent)
        × (r.1.map_data ≡ s.map_data)
        × (r.1.remain_buffer ≡ s.remain_buffer))

module _ {Bio : Type 0} (api : BioApi Bio) (copied : ℕ → ℕ) where
  send_piece-Moves :
      (s : Sending Bio) (b : Bio) (rest : List Bio) (m : ℕ)
      → m ≤ length (api.segment b)
      → (m ≡ 0 → length (api.contents b) ≡ 0)
      → s.map_data < u64_mod
      → s.remain_buffer < u64_mod
      → Ensures (Moves s) (send_piece api copied b rest m s)
  unfolding send_piece
  send_piece-Moves s b rest zero h z p q =
      let done : api.bi_size (api.advance b 0) ≡ 0 =
        omega (arith, api.size_law (api.advance b 0), ap length (api.advance_law b 0 h), z refl) in
      rw done (inr (refl, omega (arith, length-append s.sent []), omega arith, omega arith))
  send_piece-Moves s b rest (suc m) h z p q =
      elim (Bool-cases (api.bi_size (api.advance b (suc m)) == 0)) [
        | inl t ↦ rw t (
            inl (
              omega (
                arith,
                length-append s.sent (take (suc m) (api.segment b)),
                length-take_of_le (suc m) (api.segment b) h,
              )))
        | inr t ↦ rw t (
            inl (
              omega (
                arith,
                length-append s.sent (take (suc m) (api.segment b)),
                length-take_of_le (suc m) (api.segment b) h,
              )))
      ]

module _ {Bio : Type 0} (api : BioApi Bio) (copied : ℕ → ℕ) (short : (n : ℕ) → copied n ≤ n)
    (some_copied : (n : ℕ) → 0 < n → 0 < copied n) where
  copied_none : (a r : ℕ) → 0 < r → copied (if ltb r a then r else a) ≡ 0 → a ≡ 0
  copied_none a r h e = ground (arith, some_copied r, some_copied a)

  copied_le : (a r : ℕ) → copied (if ltb r a then r else a) ≤ a
  copied_le a r = ground (arith, short r, short a)

  no_contents : (b : Bio) → length (api.segment b) ≡ 0 → length (api.contents b) ≡ 0
  no_contents b e = elim (==-cases (length (api.contents b)) 0) [
    | inl (t, z) ↦ z
    | inr (t, z) ↦ absurd (omega (arith, api.segment_some b))
  ]

  send_bio-Moves :
      (s : Sending Bio) (bs : List Bio)
      → s.bio ≡ bs
      → 0 < s.map_data
      → 0 < s.remain_buffer
      → Balanced api s s
      → Ensures (Moves s) (send_bio api copied bs s)
  unfolding send_bio
  send_bio-Moves s [] e h r k =
      absurd (omega (arith, k.left, ap (λ l. length (chain_contents api l)) e))
  send_bio-Moves s (b ∷ rest) e h r k =
      send_piece-Moves api copied s b rest _ (copied_le (length (api.segment b)) s.remain_buffer)
        (λ z. no_contents b (copied_none (length (api.segment b)) s.remain_buffer r z)) k.small.0
        k.small.1

  -- Nothing that was sent is taken back, and something is sent if there are bytes and room.
  abbrev pub Sends : Sending Bio → Sending Bio → Type 0
  Sends s r =
      (length s.sent ≤ length r.sent)
      × (0 < s.map_data → 0 < s.remain_buffer → length s.sent < length r.sent)

  send_next-Sends :
      (fuel : ℕ) (s : Sending Bio) (r : Bool × Sending Bio)
      → ((t : Sending Bio)
          → t.map_data + length t.bio < fuel
          → Balanced api t t
          → Ensures (Sends t) (send_loop api copied fuel t))
      → s.map_data + length s.bio < suc fuel
      → (Balanced api s r.1
          × (r.0 ≡ true → r.1.map_data + length r.1.bio < s.map_data + length s.bio))
        × Moves s r
      → Ensures (Sends s) (elim r.0 [ true ↦ send_loop api copied fuel r.1 | false ↦ some r.1 ])
  send_next-Sends fuel s (true, t) next h q =
      Ensures-mono _ _ (send_loop api copied fuel t) (λ r p. after_move r p q.1)
        (next t (omega (arith, q.0.1 refl))
          (record { same = refl; left = q.0.0.left; used = refl; small = q.0.0.small }))
    where
      after_move : (r : Sending Bio) → Sends t r → Moves s (true, t) → Sends s r
      after_move r p (inl m) = (omega (arith, p.0), λ _ _. omega (arith, p.0))
      after_move r p (inr m) = (
        omega (arith, p.0, m.1),
        λ a b. omega (arith, p.1 (omega (arith, m.2)) (omega (arith, m.3)), m.1),
      )
  send_next-Sends fuel s (false, t) next h (q, inl m) = (omega arith, λ _ _. m)
  send_next-Sends fuel s (false, t) next h (q, inr m) = absurd (cc (m.0))

  pub send_loop-Sends :
      (fuel : ℕ) (s : Sending Bio)
      → s.map_data + length s.bio < fuel
      → Balanced api s s
      → Ensures (Sends s) (send_loop api copied fuel s)
  unfolding send_loop
  send_loop-Sends zero s h k = absurd (omega arith)
  send_loop-Sends (suc fuel) s h k = elim (ltb-cases 0 s.map_data) [
    | inr (t, u) ↦ rw t (omega arith, λ a b. absurd (omega arith))
    | inl (t, more) ↦ rw t (elim (ltb-cases 0 s.remain_buffer) [
      | inr (v, u) ↦ rw v (omega arith, λ a b. absurd (omega arith))
      | inl (v, room) ↦ rw v (
          Ensures-bind _ (send_bio api copied s.bio s) _ (
            Ensures-mono _ _ (send_bio api copied s.bio s)
              (λ r q. send_next-Sends fuel s r (λ t b c. send_loop-Sends fuel t b c) h q)
              (Ensures-and _ _ (send_bio api copied s.bio s)
                (send_bio-Balanced api copied short s s s.bio refl more k)
                (send_bio-Moves s s.bio refl more room k))))
    ])
  ]
