-- ===== src/Kernel/Release.antt =====
-- kernel/char_dev.c: the loop of `bius_dev_release` over the requests that still wait.
use bius.Base.{
  [], ◌∷◌, ◌≡◌, List, ℕ, ◌<◌, Ensures, if_both, ◌+◌, ◌==◌, arith, Ensures-bind, refl, Ensures-mono,
  ◌∙◌, ==_refl,
}
use bius.Kernel.{Driver, Body, blk, int, Request}
use bius.Kernel.Reply.{end_waiting}
use bius.Kernel.CharDev.{end_blk_request, end_blk_body}
use bius.Kernel.Conserve.{count}
use bius.Status.{blk_sts_ioerr}

-- The first member of the union is in use.
abbrev pub IsBlkBody : {Bio : Type 0} → Body Bio → Type 0
IsBlkBody (blk b) = Unit {0}
IsBlkBody (int b) = ⊥

abbrev pub AllBlk : {Bio : Type 0} → List ℕ → Driver Bio → Type 0
AllBlk ws k = (b : ℕ) → 0 < count b ws → IsBlkBody (k.requests b).body

module _ {Bio : Type 0} where
  -- Ending a block request leaves every block request one.
  end_blk_request-Keeps :
      (a w : ℕ) (k : Driver Bio)
      → IsBlkBody (k.requests w).body
      → Ensures
          (λ q.
            (count a q.ended ≡ count a (w ∷ k.ended))
            × (q.pending_requests ≡ k.pending_requests)
            × ((b : ℕ) → IsBlkBody (k.requests b).body → IsBlkBody (q.requests b).body))
          (end_blk_request w blk_sts_ioerr k)
  unfolding end_blk_request
  end_blk_request-Keeps a w k h = end_body (k.requests w).body h
    where
      end_body :
          (x : Body Bio)
          → IsBlkBody x
          → Ensures
              (λ q.
                (count a q.ended ≡ count a (w ∷ k.ended))
                × (q.pending_requests ≡ k.pending_requests)
                × ((b : ℕ) → IsBlkBody (k.requests b).body → IsBlkBody (q.requests b).body))
              (end_blk_body x w blk_sts_ioerr k)
      end_body (int x) h = absurd h
      end_body (blk x) h = (
        refl,
        refl,
        λ b i. if_both (λ (r : Request Bio). IsBlkBody r.body) (w == b) _ _ (λ e. tt) (λ e. i),
      )

  -- Closing a connection on which only block requests wait returns, and each of them has ended then
  -- as often as it waited; the queue stays as it is.
  pub end_waiting-Ends :
      (a : ℕ) (ws : List ℕ) (k : Driver Bio)
      → AllBlk ws k
      → Ensures
          (λ q.
            (count a q.ended ≡ count a ws + count a k.ended)
            × (q.pending_requests ≡ k.pending_requests))
          (end_waiting ws k)
  unfolding end_waiting
  end_waiting-Ends a [] k h = (omega arith, refl)
  end_waiting-Ends a (w ∷ ws) k h = Ensures-bind _ (end_blk_request w blk_sts_ioerr k) _ (
      Ensures-mono _ _ (end_blk_request w blk_sts_ioerr k)
        (λ q x.
          Ensures-mono _ _ (end_waiting ws q) (λ r y. (omega (arith, x.0, y.0), y.1 ∙ x.1))
            (end_waiting-Ends a ws q (λ b m. x.2 b (h b (omega (arith, m))))))
        (end_blk_request-Keeps a w k (h w (rw (==_refl w) (omega arith)))))
