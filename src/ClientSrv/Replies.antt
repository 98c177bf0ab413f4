-- ===== src/ClientSrv/Replies.antt =====
-- Which clients hear of a batch (replica/clientsrv.go).
use hotstuff_repbased_leader.Prelude.{
  ℕ, ◌≡◌, refl, Bool, true, false, not, ◌&&◌, none, List, [], ◌∷◌, arith, ◌==◌, if◌then◌else◌,
  Option-cases, inl, inr,
}
use hotstuff_repbased_leader.CmdCache.{ClientCommand}
use hotstuff_repbased_leader.ClientSrv.{
  ClientSrv, id_eq, cmd_id, find_awaiting, drop_awaiting, reply, fork_all,
}

-- Does a batch hold a command of the client and the sequence number?
abbrev pub has_id : ℕ × ℕ → List ClientCommand → Bool
has_id id [] = false
has_id (client, number) (cmd ∷ cmds) =
    if cmd.client_id == client && cmd.sequence_number == number
    then true
    else has_id (client, number) cmds

find-drop_awaiting :
    (id j : ℕ × ℕ) (m : List ((ℕ × ℕ) × ℕ))
    → find_awaiting j (drop_awaiting id m) ≡ (if id_eq id j then none else find_awaiting j m)
unfolding find_awaiting drop_awaiting
find-drop_awaiting (a, b) (c, d) [] = ground arith
find-drop_awaiting (a, b) (c, d) (((e, f), n) ∷ m) =
    ground (arith, find-drop_awaiting (a, b) (c, d) m)

find_same :
    (i j : ℕ × ℕ) (m : List ((ℕ × ℕ) × ℕ))
    → id_eq i j ≡ true
    → find_awaiting i m ≡ find_awaiting j m
unfolding find_awaiting
find_same (a, b) (c, d) [] same = refl
find_same (a, b) (c, d) (((e, f), n) ∷ m) same = ground (arith, find_same (a, b) (c, d) m)

reply-find :
    (success : Bool) (cmd : ClientCommand) (srv : ClientSrv) (j : ℕ × ℕ)
    → find_awaiting j (reply success cmd srv).awaiting_cmds
      ≡ (if id_eq (cmd_id cmd) j then none else find_awaiting j srv.awaiting_cmds)
unfolding reply
reply-find success cmd srv j = elim (Option-cases (find_awaiting (cmd_id cmd) srv.awaiting_cmds)) [
  | inl nobody ↦ ground (arith, find_same (cmd_id cmd) j srv.awaiting_cmds)
  | inr (c, waits) ↦ ground (arith, find-drop_awaiting (cmd_id cmd) j srv.awaiting_cmds)
]

fork_all-find :
    (cmds : List ClientCommand) (srv : ClientSrv) (j : ℕ × ℕ)
    → find_awaiting j (fork_all cmds srv).awaiting_cmds
      ≡ (if has_id j cmds then none else find_awaiting j srv.awaiting_cmds)
unfolding fork_all cmd_id
fork_all-find [] srv j = refl
fork_all-find (cmd ∷ cmds) srv j =
    ground (arith, fork_all-find cmds (reply false cmd srv) j, reply-find false cmd srv j)

-- Whether a reply was sent on a channel.
abbrev pub replied : ℕ → Bool → List (ℕ × Bool) → Bool
replied c success [] = false
replied c true ((d, b) ∷ rs) = if d == c && b then true else replied c true rs
replied c false ((d, b) ∷ rs) = if d == c && not b then true else replied c false rs
