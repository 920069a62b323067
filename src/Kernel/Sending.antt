-- ===== src/Kernel/Sending.antt =====
-- kernel/command.h: the loop of `bius_send_data` hands the user the bytes of the request's bios, in
-- order and without a gap.
use bius.Base.{
  [], ◌∷◌, true, false, some, List, ℕ, ◌++◌, ◌≡◌, ◌≤◌, ◌<◌, length, Ensures, ◌+◌, take, u64_mod,
  take-append-drop, arith, ap, ◌∙◌, length-append, length-take_of_le, ==-cases, inl, inr,
  if◌then◌else◌, suc, ltb, Bool, ltb-cases, Bool-cases, Ensures-bind, Ensures-mono, refl,
  append_assoc, sym, subst, nil_of_length,
}
use bius.Kernel.{BioApi}
use bius.Kernel.Transfer.{Sending, send_bio, send_loop, send_piece}
use Prim.Native.Nat.{zero}

module _ {Bio : Type 0} (api : BioApi Bio) where
  abbrev pub chain_contents : List Bio → List ℕ
  chain_contents [] = []
  chain_contents (b ∷ bs) = api.contents b ++ chain_contents bs

  -- Against the state `o` from before: no byte is lost or moved, `map_data` counts the bytes that
  -- are left, and the room used is the bytes sent.
  pub record Balanced (o s : Sending Bio) : Type 0 where
    pub same : s.sent ++ chain_contents s.bio ≡ o.sent ++ chain_contents o.bio
    pub left : s.map_data ≡ length (chain_contents s.bio)
    pub used : s.remain_buffer + length s.sent ≡ o.remain_buffer + length o.sent
    pub small : (s.map_data < u64_mod) × (s.remain_buffer < u64_mod)

  split_law :
      (b : Bio) (m : ℕ)
      → m ≤ length (api.segment b)
      → take m (api.segment b) ++ api.contents (api.advance b m) ≡ api.contents b
  split_law b m h =
      rw (api.advance_law b m h, ← api.segment_law b m h) (take-append-drop m (api.contents b))

module _ {Bio : Type 0} (api : BioApi Bio) (copied : ℕ → ℕ) where
  pub send_piece-Balanced :
      (o s : Sending Bio) (b : Bio) (rest : List Bio) (m : ℕ)
      → s.bio ≡ b ∷ rest
      → m ≤ length (api.segment b)
      → m ≤ s.remain_buffer
      → Balanced api o s
      → Ensures
          (λ r.
            Balanced api o r.1
            × (r.0 ≡ true → r.1.map_data + length r.1.bio < s.map_data + length s.bio))
          (send_piece api copied b rest m s)
  unfolding send_piece
  send_piece-Balanced o s b rest m e h r k =
      let split = split_law api b m h in
      let size : length (chain_contents api s.bio)
          ≡ length (api.contents b) + length (chain_contents api rest) =
        ap (λ l. length (chain_contents api l)) e
        ∙ length-append (api.contents b) (chain_contents api rest) in
      let parts : m + length (api.contents (api.advance b m)) ≡ length (api.contents b) = omega (
        arith,
        ap length split,
        length-append (take m (api.segment b)) (api.contents (api.advance b m)),
        length-take_of_le m (api.segment b) h,
      ) in
      let joined : (s.sent ++ take m (api.segment b))
            ++ (api.contents (api.advance b m) ++ chain_contents api rest)
          ≡ o.sent ++ chain_contents api o.bio =
        append_assoc s.sent (take m (api.segment b))
          (api.contents (api.advance b m) ++ chain_contents api rest)
        ∙ ap (◌++◌ s.sent) (
            sym (
              append_assoc (take m (api.segment b)) (api.contents (api.advance b m))
                (chain_contents api rest))
            ∙ ap (λ x. x ++ chain_contents api rest) split)
        ∙ ap (λ l. s.sent ++ chain_contents api l) (sym e)
        ∙ k.same in
      elim (==-cases (api.bi_size (api.advance b m)) 0) [
        | inl (t, done) ↦ rw t (
          record {
            same =
                subst
                  (λ x.
                    (s.sent ++ take m (api.segment b)) ++ (x ++ chain_contents api rest)
                    ≡ o.sent ++ chain_contents api o.bio)
                  (nil_of_length _ (sym (api.size_law (api.advance b m)) ∙ done)) joined;
            left =
                omega (arith, k.left, k.small, size, parts, done, api.size_law (api.advance b m));
            used = omega (
              arith,
              k.used,
              k.small,
              length-append s.sent (take m (api.segment b)),
              length-take_of_le m (api.segment b) h,
            );
            small = omega arith;
          },
          λ _. omega (arith, ap length e, k.left, k.small, size, parts),
        )
        | inr (t, more) ↦ rw t (
          record {
            same = joined;
            left = omega (
              arith,
              k.left,
              k.small,
              size,
              parts,
              length-append (api.contents (api.advance b m)) (chain_contents api rest),
            );
            used = omega (
              arith,
              k.used,
              k.small,
              length-append s.sent (take m (api.segment b)),
              length-take_of_le m (api.segment b) h,
            );
            small = omega arith;
          },
          λ go. ground (arith, ap length e, k.left, k.small, size, parts),
        )
      ]

module _ {Bio : Type 0} (api : BioApi Bio) (copied : ℕ → ℕ) (short : (n : ℕ) → copied n ≤ n) where
  pub send_bio-Balanced :
      (o s : Sending Bio) (bs : List Bio)
      → s.bio ≡ bs
      → 0 < s.map_data
      → Balanced api o s
      → Ensures
          (λ r.
            Balanced api o r.1
            × (r.0 ≡ true → r.1.map_data + length r.1.bio < s.map_data + length s.bio))
          (send_bio api copied bs s)
  unfolding send_bio
  send_bio-Balanced o s [] e h k =
      absurd (omega (arith, k.left, ap (λ l. length (chain_contents api l)) e))
  send_bio-Balanced o s (b ∷ rest) e h k =
      send_piece-Balanced api copied o s b rest _ e
        (bounds (length (api.segment b)) s.remain_buffer).0
        (bounds (length (api.segment b)) s.remain_buffer).1 k
    where
      bounds :
          (a r : ℕ)
          → (copied (if ltb r a then r else a) ≤ a) × (copied (if ltb r a then r else a) ≤ r)
      bounds a r = ground (arith, short r, short a)

  send_next-Balanced :
      (fuel : ℕ) (o s : Sending Bio) (r : Bool × Sending Bio)
      → ((t : Sending Bio)
          → t.map_data + length t.bio < fuel
          → Balanced api o t
          → Ensures (Balanced api o) (send_loop api copied fuel t))
      → s.map_data + length s.bio < suc fuel
      → Balanced api o r.1
        × (r.0 ≡ true → r.1.map_data + length r.1.bio < s.map_data + length s.bio)
      → Ensures
          (Balanced api o)
          (elim r.0 [ true ↦ send_loop api copied fuel r.1 | false ↦ some r.1 ])
  send_next-Balanced fuel o s (true, t) next h q = next t (omega (arith, q.1 refl)) q.0
  send_next-Balanced fuel o s (false, t) next h q = q.0

  -- With fuel for each byte and each bio that is left, and where `copy_to_iter` copies no more than
  -- it is given and `map_data` counts the bytes that are left, the loop ends. What it has sent and
  -- what is left make up the data from before, `map_data` still counts what is left, and the room
  -- used is the bytes sent.
  pub send_loop-Balanced :
      (fuel : ℕ) (o s : Sending Bio)
      → s.map_data + length s.bio < fuel
      → Balanced api o s
      → Ensures (Balanced api o) (send_loop api copied fuel s)
  unfolding send_loop
  send_loop-Balanced zero o s h k = absurd (omega arith)
  send_loop-Balanced (suc fuel) o s h k = elim (ltb-cases 0 s.map_data) [
    | inr (t, _) ↦ rw t k
    | inl (t, more) ↦ rw t (elim (Bool-cases (ltb 0 s.remain_buffer)) [
      | inr u ↦ rw u k
      | inl u ↦ rw u (
          Ensures-bind _ (send_bio api copied s.bio s) _ (
            Ensures-mono _ _ (send_bio api copied s.bio s)
              (λ r q. send_next-Balanced fuel o s r (λ t b c. send_loop-Balanced fuel o t b c) h q)
              (send_bio-Balanced o s s.bio refl more k)))
    ])
  ]
