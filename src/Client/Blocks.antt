-- ===== src/Client/Blocks.antt =====
-- The client of client/client.go after its context ended.
use hotstuff_repbased_leader.Prelude.{
  ℕ, ◌≡◌, ◌≤◌, refl, ap, ◌∙◌, false, List, [], ◌∷◌, arith, length, ltb,
}
use hotstuff_repbased_leader.Client.{
  PendingCmd, ReadResult, pushing, returned, Client, Action, begins, sends, pushes, receives, gets,
  ends, hand_over, push, act, run, begins_at, sends_at, pushes_at, receives_at, gets_at, ends_at,
}

hand_over-blocked :
    (p : PendingCmd) (c : Client) (ps : List PendingCmd) → hand_over p c ps returned ≡ c
hand_over-blocked p c [] = refl
hand_over-blocked p c (_ ∷ _) = refl

push-blocked :
    (p : PendingCmd) (c : Client)
    → c.handler ≡ returned
    → c.max_concurrent ≤ length c.pending_cmds
    → push p c ≡ c
unfolding push
push-blocked p c gone full =
    let no_room : ltb (length c.pending_cmds) c.max_concurrent ≡ false = ground arith in
    rw no_room (ap (hand_over p c c.pending_cmds) gone ∙ hand_over-blocked p c c.pending_cmds)

module _ (input : ℕ → ReadResult) (p : PendingCmd) where
  act-blocked :
      (a : Action) (c : Client)
      → c.sender ≡ pushing p
      → c.handler ≡ returned
      → c.max_concurrent ≤ length c.pending_cmds
      → act input a c ≡ c
  unfolding act
  act-blocked (begins ctx_err wait) c at gone full = ap (λ s. begins_at s ctx_err wait c) at
  act-blocked sends c at gone full = ap (λ s. sends_at s (input c.reads) c) at
  act-blocked pushes c at gone full = ap (λ s. pushes_at s c) at ∙ push-blocked p c gone full
  act-blocked receives c at gone full = ap (λ h. receives_at h c) gone
  act-blocked (gets reply) c at gone full = ap (λ h. gets_at h reply c) gone
  act-blocked ends c at gone full = ap (λ h. ends_at h c) gone

  -- Once handleCommands has returned while the channel is full, a sender that has a command for the
  -- channel is blocked for ever.
  pub run-blocked :
      (actions : List Action) (c : Client)
      → c.sender ≡ pushing p
      → c.handler ≡ returned
      → c.max_concurrent ≤ length c.pending_cmds
      → run input actions c ≡ c
  unfolding run
  run-blocked [] c at gone full = refl
  run-blocked (a ∷ actions) c at gone full =
      ap (run input actions) (act-blocked a c at gone full) ∙ run-blocked actions c at gone full
