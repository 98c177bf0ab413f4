-- ===== src/Client/Windows.antt =====
-- The commands that a client sends, in the order of their numbers.

use hotstuff_repbased_leader.Prelude.{ℕ, zero, suc, ◌+◌, ◌≡◌, refl, ap, List, [], ◌∷◌, ◌++◌, arith}
use hotstuff_repbased_leader.CmdCache.{ClientCommand}
use hotstuff_repbased_leader.Client.{
  PendingCmd, ReadResult, Sender, pushing, Handler, getting, Client,
}

-- The commands in the goroutines' hands.
abbrev pub held : Handler → List PendingCmd
held (getting p) = p ∷ []
held _ = []

abbrev pub offered : Sender → List PendingCmd
offered (pushing p) = p ∷ []
offered _ = []

-- Sent and not yet answered, the oldest first.
abbrev pub in_flight : Client → List PendingCmd
in_flight c = held c.handler ++ (c.pending_cmds ++ offered c.sender)

abbrev pub pend : ℕ → ClientCommand → PendingCmd
pend n cmd = record { sequence_number = n; promise = cmd }

pub pending_lem :
    (m n : ℕ) (cmd other : ClientCommand) → m ≡ n → cmd ≡ other → pend m cmd ≡ pend n other
pending_lem m n cmd other same_number same_cmd = rw (same_number, same_cmd) refl

module _ (input : ℕ → ReadResult) (id : ℕ) where
  -- The command number `n + 1`.
  abbrev pub command : ℕ → ClientCommand
  command n = record { client_id = id; sequence_number = suc n; payload = (input n).bytes }

  -- The first `n` commands, the latest first.
  abbrev pub commands : ℕ → List ClientCommand
  commands zero = []
  commands (suc n) = command n ∷ commands n

  abbrev pub pending_cmd : ℕ → PendingCmd
  pending_cmd n = pend (suc (suc n)) (command n)

  -- What is in flight after `a` answers, with `k` commands more sent.
  abbrev pub window : ℕ → ℕ → List PendingCmd
  window a zero = []
  window a (suc k) = pending_cmd a ∷ window (suc a) k

  pub window-suc : (a k s : ℕ) → s ≡ a + k → window a k ++ (pending_cmd s ∷ []) ≡ window a (suc k)
  window-suc a zero s h = ap (λ n. pending_cmd n ∷ []) (omega arith)
  window-suc a (suc k) s h = ap (λ ps. pending_cmd a ∷ ps) (window-suc (suc a) k s (omega arith))

  pub window-first :
      (k a : ℕ) (p : PendingCmd) (ps : List PendingCmd)
      → p ∷ ps ≡ window a k
      → (j : ℕ) × (k ≡ suc j) × (p ≡ pending_cmd a) × (ps ≡ window (suc a) j)
  window-first zero a p ps h = absurd (ground arith)
  window-first (suc k) a p ps h = (k, refl, cc, cc)
