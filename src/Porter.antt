-- ===== src/Porter.antt =====
-- The parent process of the porter, once the job's process is forked: the loop in `main` of
-- c_src/porter/porter.cpp. Each round serves the control socket and the standard input, looks at the
-- child, and reports. Sleeping is left out.
pub mod Info
pub mod Rounds
pub mod Life
pub mod Final
pub mod Samples
pub mod Text
pub mod Environment
use swm_core.Prelude.{
  ℕ, Bool, true, false, not, List, [], ◌∷◌, ◌++◌, map, Option, none, some, if◌then◌else◌, Bytes,
  codes, ℤ, pos, negsuc,
}
use swm_core.Ei.{Ei}
use swm_core.Ei.Item.{Item}
use swm_core.Entity.Process.{Process}
use swm_core.Relay.{Event, reply, request, Relay, ReadCall, try_read_ctrl_client}
use swm_core.Relay.Reply.{try_read_stdin_reply}
use swm_core.Metrics.Config.{MetricsConfig}
use swm_core.Metrics.Window.{Doubles}
use swm_core.Metrics.Sample.{MetricsState}
use swm_core.Metrics.Report.{Report}
use swm_core.Metrics.Cycle.{Surroundings, maybe_send, flush}
use swm_core.Porter.Info.{send_process_info}

-- What waitpid(2) says of a child: the exit code or the number of the signal. Behind a stop, whether
-- the child ends later.
pub data Status : Type 0 where
  exited signaled : ℕ → Status
  stopped : ℕ → Bool → Status

-- The result of waitpid(2), called with WNOHANG and WUNTRACED.
pub data Wait : Type 0 where
  wait_error running : Wait
  ended : Status → Wait

-- What a round meets: accept(2) on the control socket (`none` for -1), read(2) on the client and on
-- the standard input, waitpid(2), the clock, and what the metrics see. `gone` tells of a descriptor
-- whether its other end is closed, `encodes` whether the encoder gets its memory for the process info.
pub record Round : Type 0 where
  pub accepted : Option ℕ
  pub from_client : ReadCall
  pub gone : ℕ → Bool
  pub from_stdin : List ReadCall
  pub waited : Wait
  pub now_ms : ℤ
  pub sees : Surroundings
  pub encodes : Bool

-- What does not change: whether the control socket listens, the child and `metrics_cfg`.
pub record Setup : Type 0 where
  pub listens : Bool
  pub child_pid : ℕ
  pub metrics_cfg : MetricsConfig

abbrev pub exit_code : Status → ℤ
exit_code (exited n) = pos n
exit_code (signaled s) = negsuc 0
exit_code (stopped s later) = negsuc 0

abbrev pub signal : Status → ℤ
signal (exited n) = pos 0
signal (signaled s) = pos s
signal (stopped s later) = pos s

-- `proc` as a round begins with it, and as it is sent.
abbrev pub failed : ℕ → Process
failed pid = record {
  pid = pos pid;
  state = codes "E";
  exitcode = negsuc 0;
  signal = negsuc 0;
  comment = [];
}

abbrev pub error_info : ℕ → Process
error_info pid = record (failed pid) { comment = codes "waitpid error" }

abbrev pub running_info : ℕ → Process
running_info pid = record (failed pid) { state = codes "R" }

abbrev pub finished_info : ℕ → Status → Process
finished_info pid st = record (failed pid) {
  state = codes "F";
  exitcode = exit_code st;
  signal = signal st;
}

-- Whether wait(2) behind the loop returns: a child that has ended is gone, and the call fails at once;
-- for a child that is only stopped it blocks until the child ends.
abbrev pub wait_returns : Status → Bool
wait_returns (exited n) = true
wait_returns (signaled s) = true
wait_returns (stopped s later) = later

-- How the porter ends: with an exit code; or it stays in a call, waiting for the rest of a reply frame
-- or for the child; or SIGPIPE ends it, which it does not handle.
pub data End : Type 0 where
  exits : ℕ → End
  waits awaits_child killed : End

-- A client with an empty buffer is accepted while there is none.
unfoldable accept : Setup → Relay → Option ℕ → Relay
accept job r none = r
accept job r (some fd) = elim r.client [
  | none ↦ if job.listens then record r { client = some fd; buf = [] } else r
  | some old ↦ r
]

module _ (F : Doubles) where
  -- What the porter writes: to the client or to the Erlang side for it, process infos and metrics.
  pub data Output : Type 0 where
    event : Event → Output
    info : List Item → Output
    metrics : Report F → Output

  pub record State : Type 0 where
    pub relay : Relay
    pub metrics_state : MetricsState F

  -- How a round ends: with the next round, or not.
  pub data Next : Type 0 where
    goes_on : State → Next
    stops : End → Next

  -- The calls of `porter_ctrl_write_line` and the requests, in their order. Their answers are not
  -- looked at, but a write to a client that is gone raises SIGPIPE.
  unfoldable deliver : (ℕ → Bool) → List Event → List Output × Bool
  deliver gone [] = ([], true)
  deliver gone (reply fd text ∷ es) =
      let (out, alive) = deliver gone es in
      if gone fd then ([], false) else (event (reply fd text) ∷ out, alive)
  deliver gone (request ref s ∷ es) =
      let (out, alive) = deliver gone es in (event (request ref s) ∷ out, alive)

  abbrev infos : List (List Item) → List Output
  infos = map info

  -- `send_process_info`, and what is done where it succeeds.
  unfoldable sent_or_exit : Bool × List (List Item) → Next → List Output × Next
  sent_or_exit (ok, out) next = (infos out, if ok then next else stops (exits 1))

  unfoldable look_at_child : Setup → State → Round → List Output × Next
  unfolding sent_or_exit
  look_at_child job s r = elim r.waited [
    | wait_error ↦
        sent_or_exit (send_process_info r.encodes (error_info job.child_pid)) (stops (exits 1))
    | running ↦
        let (ok, out) = send_process_info r.encodes (running_info job.child_pid) in
        let m = maybe_send F r.sees job.metrics_cfg s.metrics_state r.now_ms in
        if ok
        then (
          infos out ++ map metrics m.sent,
          if m.ok then goes_on (record s { metrics_state = m.state }) else stops (exits 1),
        )
        else (infos out, stops (exits 1))
    | ended st ↦
        let m = flush F r.sees job.metrics_cfg s.metrics_state r.now_ms in
        let (out, next) =
          sent_or_exit (send_process_info r.encodes (finished_info job.child_pid st))
            (stops (if wait_returns st then exits 0 else awaits_child)) in
        (map metrics m.sent ++ out, next)
  ]

  module _ (E : Ei) (make_ref : ℕ → Bytes) (sends : ℕ → Bool) where
    unfoldable step : Setup → State → Round → List Output × Next
    unfolding accept look_at_child deliver
    step job s r =
        let (relay, es) =
          try_read_ctrl_client make_ref sends (accept job s.relay r.accepted) r.from_client in
        let (first, served) = deliver r.gone es in
        if not served
        then (first, stops killed)
        else elim (try_read_stdin_reply E relay r.from_stdin) [
          | none ↦ (first, stops waits)
          | some (relay', fs, rest) ↦
              let (second, answered) = deliver r.gone fs in
              let (out, next) = look_at_child job (record s { relay = relay' }) r in
              if not answered
              then (first ++ second, stops killed)
              else (first ++ (second ++ out), next)
        ]

    -- The loop over the rounds, and its end; `none` while it goes on.
    pub loop : Setup → State → List Round → List Output × Option End
    unfolding step
    loop job s [] = ([], none)
    loop job s (r ∷ rs) =
        let (out, next) = step job s r in
        elim next [
          | stops e ↦ (out, some e)
          | goes_on s' ↦ let (outs, end) = loop job s' rs in (out ++ outs, end)
        ]
