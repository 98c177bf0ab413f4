-- ===== src/Client/Runs.antt =====
-- Every interleaving of the goroutines of client/client.go, from the start.
use hotstuff_repbased_leader.Prelude.{
  ℕ, suc, ◌+◌, ◌≡◌, ◌≤◌, ◌<◌, inl, inr, refl, ap, sym, Bool, List, [], ◌∷◌, ◌++◌, arith, length,
}
use hotstuff_repbased_leader.Client.{
  ReadResult, Sender, at_loop, reading, pushing, ctx_ended, finished, failed_with_error, Handler,
  selecting, getting, returned, Client, max_uint64, new, Reply, Wait, Action, begins, sends, pushes,
  receives, gets, ends, begin, send, send_data, push, receive, get, begins_at, sends_at, pushes_at,
  receives_at, gets_at, ends_at, act, run,
}
use hotstuff_repbased_leader.Client.Windows.{held, offered}
use hotstuff_repbased_leader.Client.Flow.{Flow, hand_on, begin-Flow, push-Flow, receive-Flow}
use hotstuff_repbased_leader.Client.Answers.{send-Flow, get-Flow}

-- Each stretch raises the next command's number by one at most.
act-num : (input : ℕ → ReadResult) (a : Action) (c : Client) → (act input a c).num ≤ suc c.num
unfolding act begin send send_data push receive get
act-num input (begins ctx_err wait) c = ground arith
act-num input sends c = ground arith
act-num input pushes c = ground arith
act-num input receives c = ground arith
act-num input (gets reply) c = ground arith
act-num input ends c = ground arith

pub run-num :
    (input : ℕ → ReadResult) (actions : List Action) (c : Client)
    → (run input actions c).num ≤ c.num + length actions
unfolding run
run-num input [] c = omega arith
run-num input (a ∷ actions) c =
    omega (arith, act-num input a c, run-num input actions (act input a c))

module _ (input : ℕ → ReadResult) (id m : ℕ) where
  begins_at-Flow :
      (s : Sender) (ctx_err : Bool) (wait : Wait) (c : Client)
      → c.sender ≡ s
      → Flow input id m c
      → Flow input id m (begins_at s ctx_err wait c)
  begins_at-Flow at_loop ctx_err wait c at f = begin-Flow input id m ctx_err wait c f at
  begins_at-Flow reading ctx_err wait c at f = f
  begins_at-Flow (pushing _) ctx_err wait c at f = f
  begins_at-Flow ctx_ended ctx_err wait c at f = f
  begins_at-Flow finished ctx_err wait c at f = f
  begins_at-Flow failed_with_error ctx_err wait c at f = f

  sends_at-Flow :
      (s : Sender) (c : Client)
      → c.sender ≡ s
      → c.num + 2 < max_uint64
      → Flow input id m c
      → Flow input id m (sends_at s (input c.reads) c)
  sends_at-Flow reading c at small f =
      send-Flow input id m (input c.reads).error c f (omega (arith, f.num_lem, small)) at
  sends_at-Flow at_loop c at small f = f
  sends_at-Flow (pushing _) c at small f = f
  sends_at-Flow ctx_ended c at small f = f
  sends_at-Flow finished c at small f = f
  sends_at-Flow failed_with_error c at small f = f

  pushes_at-Flow :
      (s : Sender) (c : Client) → c.sender ≡ s → Flow input id m c → Flow input id m (pushes_at s c)
  pushes_at-Flow (pushing p) c at f = push-Flow input id m p c f at
  pushes_at-Flow reading c at f = f
  pushes_at-Flow at_loop c at f = f
  pushes_at-Flow ctx_ended c at f = f
  pushes_at-Flow finished c at f = f
  pushes_at-Flow failed_with_error c at f = f

  receives_at-Flow :
      (h : Handler) (c : Client)
      → c.handler ≡ h
      → Flow input id m c
      → Flow input id m (receives_at h c)
  receives_at-Flow selecting c at f = receive-Flow input id m c.pending_cmds c refl f at
  receives_at-Flow (getting _) c at f = f
  receives_at-Flow returned c at f = f

  gets_at-Flow :
      (h : Handler) (reply : Reply) (c : Client)
      → c.handler ≡ h
      → Flow input id m c
      → Flow input id m (gets_at h reply c)
  gets_at-Flow (getting cmd) reply c at f = get-Flow input id m reply cmd c f at
  gets_at-Flow selecting reply c at f = f
  gets_at-Flow returned reply c at f = f

  ends_at-Flow :
      (h : Handler) (c : Client) → c.handler ≡ h → Flow input id m c → Flow input id m (ends_at h c)
  ends_at-Flow selecting c at f =
      hand_on input id m c f returned c.pending_cmds c.sender c.reads
        (ap (λ h. held h ++ (c.pending_cmds ++ offered c.sender)) (sym at)) f.buffered f.reads_lem
        f.done
  ends_at-Flow (getting _) c at f = f
  ends_at-Flow returned c at f = f

  act-Flow :
      (a : Action) (c : Client)
      → c.num + 2 < max_uint64
      → Flow input id m c
      → Flow input id m (act input a c)
  unfolding act
  act-Flow (begins ctx_err wait) c small f = begins_at-Flow c.sender ctx_err wait c refl f
  act-Flow sends c small f = sends_at-Flow c.sender c refl small f
  act-Flow pushes c small f = pushes_at-Flow c.sender c refl f
  act-Flow receives c small f = receives_at-Flow c.handler c refl f
  act-Flow (gets reply) c small f = gets_at-Flow c.handler reply c refl f
  act-Flow ends c small f = ends_at-Flow c.handler c refl f

  pub run-Flow :
      (actions : List Action) (c : Client)
      → c.num + length actions + 2 < max_uint64
      → Flow input id m c
      → Flow input id m (run input actions c)
  unfolding run
  run-Flow [] c small f = f
  run-Flow (a ∷ actions) c small f =
      run-Flow actions (act input a c) (omega (arith, act-num input a c, small))
        (act-Flow a c (omega (arith, small)) f)

  pub new-Flow : Flow input id m (new id m)
  unfolding new
  new-Flow = record {
    answers = 0;
    unsettled = 0;
    total = 0;
    total_lem = refl;
    same_id = refl;
    same_size = refl;
    sent_lem = refl;
    answered_lem = refl;
    flight = refl;
    buffered = omega arith;
    num_lem = refl;
    highest = refl;
    counts = omega arith;
    last = inl refl;
    reads_lem = inr refl;
    done = inl (ground arith);
  }
