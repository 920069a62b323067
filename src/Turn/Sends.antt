-- ===== src/Turn/Sends.antt =====
-- library/libbius.c and kernel/char_dev.c: one read of a write's data from the driver.
use bius.RequestType.{unmapped}
use bius.Kernel.{BioApi, Driver, Connection, Body, BlkBody, blk, int}
use bius.Kernel.Transfer.{send_data, send_by_map, send_loop, Sending}
use bius.Kernel.Sending.{Balanced, send_loop-Balanced, chain_contents}
use bius.Kernel.Progress.{send_loop-Sends}
use bius.Kernel.CharDev.{put_body}
use bius.Turn.{List, ℕ, Option}
use bius.Base.{
  ℕ, List, Option, ◌≡◌, length, [], ◌≤◌, true, some, none, ◌<◌, u64_mod, ℤ, Ensures, ◌++◌, arith,
  subst, sym, ap, refl, ◌∷◌, ◌+◌, Ensures-bind, Ensures-mono, Ensures-and, ==-cases, inl, inr, ◌∙◌,
}

module _ {Bio : Type 0} where
  abbrev pub IsBlk : Body Bio → Type 0
  IsBlk (blk r) = Unit {0}
  IsBlk (int r) = ⊥

  -- Nothing of `o` but what is left to send has changed.
  pub record Kept (o s : Connection × Driver Bio) : Type 0 where
    pub attached : s.0.attached ≡ o.0.attached
    pub waiting : s.0.waiting_requests ≡ o.0.waiting_requests
    pub pending : s.1.pending_requests ≡ o.1.pending_requests
    pub ended : s.1.ended ≡ o.1.ended
    pub ids : (b : ℕ) → (s.1.requests b).id ≡ (o.1.requests b).id
    pub kinds : (b : ℕ) → (s.1.requests b).kind ≡ (o.1.requests b).kind
    pub bodies : (b : ℕ) → IsBlk (o.1.requests b).body → IsBlk (s.1.requests b).body

  pub Kept-refl : (o : Connection × Driver Bio) → Kept o o
  Kept-refl o = record {
    attached = refl;
    waiting = refl;
    pending = refl;
    ended = refl;
    ids = λ b. refl;
    kinds = λ b. refl;
    bodies = λ b h. h;
  }

  -- A new body that belongs to a block request keeps all else.
  pub put_body-Kept :
      (o : Connection × Driver Bio) (c : Connection) (k : Driver Bio) (a : ℕ) (r : BlkBody Bio)
      (s : Option ℕ)
      → Kept o (c, k)
      → Kept o (record c { sending = s }, put_body k a (blk r))
  put_body-Kept o c k a r s h = record {
    attached = h.attached;
    waiting = h.waiting;
    pending = h.pending;
    ended = h.ended;
    ids = λ b. elim (==-cases a b) [
      | inl (t, e) ↦ rw t (ap (λ i. (k.requests i).id) e ∙ h.ids b)
      | inr (t, e) ↦ rw t (h.ids b)
    ];
    kinds = λ b. elim (==-cases a b) [
      | inl (t, e) ↦ rw t (ap (λ i. (k.requests i).kind) e ∙ h.kinds b)
      | inr (t, e) ↦ rw t (h.kinds b)
    ];
    bodies = λ b q. elim (==-cases a b) [ inl (t, e) ↦ rw t tt | inr (t, e) ↦ rw t (h.bodies b q) ];
  }

module _ {Bio : Type 0} (api : BioApi Bio) where
  abbrev pub body_data : Body Bio → List ℕ
  body_data (blk r) = chain_contents api r.bio
  body_data (int r) = []

  -- What the connection has left to send.
  abbrev pub to_send : Connection × Driver Bio → List ℕ
  to_send (c, k) = elim c.sending [ none ↦ [] | some a ↦ body_data (k.requests a).body ]

  -- A request whose data is being sent: `map_data` counts the bytes that its bios have left, and there
  -- are some.
  pub record IsSending (r : BlkBody Bio) : Type 0 where
    pub left : r.map_data ≡ length (chain_contents api r.bio)
    pub some_left : 0 < r.map_data
    pub small : r.map_data < u64_mod
    pub plain : r.map_type ≡ unmapped

  abbrev pub IsSendingBody : Body Bio → Type 0
  IsSendingBody (blk r) = IsSending r
  IsSendingBody (int r) = ⊥

  abbrev pub IsSendingBy : Option ℕ → Driver Bio → Type 0
  IsSendingBy none k = Unit {0}
  IsSendingBy (some a) k = IsSendingBody (k.requests a).body

  abbrev pub IsOpen : Connection × Driver Bio → Connection × Driver Bio → Type 0
  IsOpen o (c, k) = (c.attached ≡ true) × IsSendingBy c.sending k × Kept o (c, k)

  -- What a read of data returns: some bytes, at most `room`, from the front of what is left.
  pub record IsFront (room : ℕ) (r : BlkBody Bio) (x : ℤ × List ℕ × BlkBody Bio) : Type 0 where
    pub some_sent : 0 < length x.1
    pub fits : length x.1 ≤ room
    pub same : x.1 ++ chain_contents api x.2.bio ≡ chain_contents api r.bio
    pub left : x.2.map_data ≡ length (chain_contents api x.2.bio)
    pub small : x.2.map_data < u64_mod
    pub plain : x.2.map_type ≡ unmapped

module _ {Bio : Type 0} (api : BioApi Bio) (copied : ℕ → ℕ) (short : (n : ℕ) → copied n ≤ n)
    (some_copied : (n : ℕ) → 0 < n → 0 < copied n) where
  send_by_map-IsFront :
      (room : ℕ) (r : BlkBody Bio) (bs : List Bio)
      → r.bio ≡ bs
      → 0 < room
      → room < u64_mod
      → IsSending api r
      → Ensures (IsFront api room r) (send_by_map api copied bs unmapped room r)
  unfolding send_by_map
  send_by_map-IsFront room r [] e h u k =
      absurd (omega (arith, k.left, k.some_left, ap (λ l. length (chain_contents api l)) e))
  send_by_map-IsFront room r (b ∷ rest) e h u k =
      let s : Sending Bio = record {
        bio = r.bio;
        map_data = r.map_data;
        remain_buffer = room;
        sent = [];
      } in
      let start : Balanced api s s = record {
        same = refl;
        left = k.left;
        used = refl;
        small = (k.small, u);
      } in
      let fuel : ℕ = r.map_data + length r.bio + 1 in
      Ensures-bind _ (send_loop api copied fuel s) _ (
        Ensures-mono _ _ (send_loop api copied fuel s)
          (λ t q. record {
            some_sent = q.1.1 k.some_left h;
            fits = omega (arith, q.0.used);
            same = q.0.same;
            left = q.0.left;
            small = q.0.small.0;
            plain = k.plain;
          })
          (Ensures-and _ _ (send_loop api copied fuel s)
            (send_loop-Balanced api copied short fuel s s (omega arith) start)
            (send_loop-Sends api copied short some_copied fuel s (omega arith) start)))

  pub send_data-IsFront :
      (room : ℕ) (r : BlkBody Bio)
      → 0 < room
      → room < u64_mod
      → IsSending api r
      → Ensures (IsFront api room r) (send_data api copied room r)
  unfolding send_data
  send_data-IsFront room r h u k =
      subst (λ t. Ensures (IsFront api room r) (send_by_map api copied r.bio t room r))
        (sym k.plain) (send_by_map-IsFront room r r.bio refl h u k)
