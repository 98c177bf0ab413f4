-- ===== src/ClientSrv.antt =====
-- replica/clientsrv.go: the clients that wait for their commands. The channel of a waiting call is a
-- number, and a reply on it is `true` for success and `false` for the error of a fork. The digest of
-- the executed data is kept as the data written.
pub mod Replies
use hotstuff_repbased_leader.Prelude.{
  ℕ, Bool, true, false, ◌&&◌, Option, none, some, List, [], ◌∷◌, ◌==◌, if◌then◌else◌, length,
}
use hotstuff_repbased_leader.CmdCache.{ClientCommand, CmdCache, add_command}

pub record ClientSrv : Type 0 where
  pub awaiting_cmds : List ((ℕ × ℕ) × ℕ)
  pub cmd_cache : CmdCache
  pub hashed : List (List ℕ)
  -- replies sent, latest first
  pub replies : List (ℕ × Bool)
  -- the sizes of the commits reported to the metrics, latest first
  pub commit_events : List ℕ

abbrev pub id_eq : ℕ × ℕ → ℕ × ℕ → Bool
id_eq (c, n) (d, m) = c == d && n == m

unfoldable pub cmd_id : ClientCommand → ℕ × ℕ
cmd_id cmd = (cmd.client_id, cmd.sequence_number)

unfoldable pub find_awaiting : ℕ × ℕ → List ((ℕ × ℕ) × ℕ) → Option ℕ
find_awaiting id [] = none
find_awaiting id ((j, c) ∷ m) = if id_eq j id then some c else find_awaiting id m

unfoldable pub put_awaiting : ℕ × ℕ → ℕ → List ((ℕ × ℕ) × ℕ) → List ((ℕ × ℕ) × ℕ)
put_awaiting id c [] = (id, c) ∷ []
put_awaiting id c ((j, d) ∷ m) = if id_eq j id then (id, c) ∷ m else (j, d) ∷ put_awaiting id c m

unfoldable pub drop_awaiting : ℕ × ℕ → List ((ℕ × ℕ) × ℕ) → List ((ℕ × ℕ) × ℕ)
drop_awaiting id [] = []
drop_awaiting id ((j, c) ∷ m) =
    let rest = drop_awaiting id m in if id_eq j id then rest else (j, c) ∷ rest

-- `ExecCommand` up to the wait on the channel `c`.
unfoldable pub exec_command : ℕ → ClientCommand → ClientSrv → ClientSrv
unfolding put_awaiting cmd_id add_command
exec_command c cmd srv = record srv {
  awaiting_cmds = put_awaiting (cmd_id cmd) c srv.awaiting_cmds;
  cmd_cache = (add_command cmd srv.cmd_cache).0;
}

-- The reply to the client that waits for a command, if there is one.
unfoldable pub reply : Bool → ClientCommand → ClientSrv → ClientSrv
unfolding find_awaiting drop_awaiting cmd_id
reply success cmd srv = elim (find_awaiting (cmd_id cmd) srv.awaiting_cmds) [
  | none ↦ srv
  | some c ↦ record srv {
    replies = (c, success) ∷ srv.replies;
    awaiting_cmds = drop_awaiting (cmd_id cmd) srv.awaiting_cmds;
  }
]

unfoldable pub exec_all : List ClientCommand → ClientSrv → ClientSrv
unfolding reply
exec_all [] srv = srv
exec_all (cmd ∷ cmds) srv =
    exec_all cmds (reply true cmd (record srv { hashed = cmd.payload ∷ srv.hashed }))

unfoldable pub fork_all : List ClientCommand → ClientSrv → ClientSrv
unfolding reply
fork_all [] srv = srv
fork_all (cmd ∷ cmds) srv = fork_all cmds (reply false cmd srv)

module _ (unmarshal : List ℕ → Option (List ClientCommand)) where
  unfoldable pub exec : List ℕ → ClientSrv → ClientSrv
  unfolding exec_all
  exec cmd srv = elim (unmarshal cmd) [
    | none ↦ srv
    | some batch ↦ exec_all batch (record srv { commit_events = length batch ∷ srv.commit_events })
  ]

  unfoldable pub fork : List ℕ → ClientSrv → ClientSrv
  unfolding fork_all
  fork cmd srv = elim (unmarshal cmd) [ none ↦ srv | some batch ↦ fork_all batch srv ]
