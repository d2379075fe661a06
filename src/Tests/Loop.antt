-- ===== src/Tests/Loop.antt =====
-- A job that runs for two rounds and is killed, and the variables of its process.
use swm_core.Prelude.{
  ℕ, true, false, List, [], ◌∷◌, ◌++◌, some, none, ◌≡◌, ◌≢◌, refl, Bytes, codes, All, pos, ◌+◌,
  arith,
}
use swm_core.Ctrl.Request.{porter_req, porter_req-IsTerm}
use swm_core.Ctrl.Write.{porter_ctrl_write_line, porter_ctrl_write_line_total}
use swm_core.WriteLoop.{wrote, interrupted}
use swm_core.Ei.Item.{IsTerm}
use swm_core.Relay.{ReadCall, again}
use swm_core.Relay.Stdin.{nothing, waiting, read_frame}
use swm_core.Relay.Framing.{relay}
use swm_core.Porter.{signaled, Wait, running, ended, Round, Setup, State, loop}
use swm_core.Porter.Rounds.{process_infos, Serves}
use swm_core.Porter.Life.{life, waits_of, loop-life}
use swm_core.Porter.Final.{finals, ends, loop-finals}
use swm_core.Porter.Samples.{Ticks, reports, taken_in, loop-samples}
use swm_core.Metrics.Cycle.Samples.{reported}
use swm_core.Tests.Buffers.{cells}
use swm_core.Tests.Metrics.{naturals, config, surroundings, state, state-IsStarted}

abbrev round : Wait → Round
round w = record {
  accepted = none;
  from_client = again;
  gone = λ fd. false;
  from_stdin = again ∷ [];
  waited = w;
  now_ms = pos 200000;
  sees = surroundings;
  encodes = true;
}

abbrev rounds : List Round
rounds = round running ∷ round running ∷ round (ended (signaled 9)) ∷ []

abbrev job : Setup
job = record { listens = true; child_pid = 77; metrics_cfg = config }

abbrev start : State naturals
start = record { relay = relay 7 (record { pending = []; made = 0 }) []; metrics_state = state }

nothing≢waiting : (rest : List ReadCall) → nothing rest ≢ waiting
nothing≢waiting rest h = cc

round-Serves : (w : Wait) → Serves (round w)
unfolding read_frame
round-Serves w = record {
  info_encodes = refl;
  metrics_encode = refl;
  whole = nothing≢waiting [];
  heard = λ fd. refl;
}

served : All Serves rounds
served = (round-Serves running, (round-Serves running, (round-Serves (ended (signaled 9)), tt)))

abbrev numbered : ℕ → Bytes
numbered n = n ∷ []

loop-life_example :
    (process_infos naturals (loop naturals cells numbered (λ n. true) job start rounds).0
      ≡ (life 77 (waits_of rounds)).0)
    × ((loop naturals cells numbered (λ n. true) job start rounds).1
        ≡ (life 77 (waits_of rounds)).1)
loop-life_example = loop-life naturals cells numbered (λ n. true) job start rounds served

loop-finals_example :
    finals naturals (loop naturals cells numbered (λ n. true) job start rounds).0
    ≡ ends (loop naturals cells numbered (λ n. true) job start rounds).1
loop-finals_example = loop-finals naturals cells numbered (λ n. true) job start rounds

now≢0 : pos 200000 ≢ pos 0
now≢0 h = absurd (ground arith)

ticked : All Ticks rounds
ticked = (now≢0, (now≢0, (now≢0, tt)))

loop-samples_example :
    reported naturals
      (reports naturals (loop naturals cells numbered (λ n. true) job start rounds).0)
    ≡ state.window.samples + taken_in naturals config state rounds
loop-samples_example =
    loop-samples naturals cells numbered (λ n. true) job start rounds 2 (signaled 9) [] refl served
      ticked refl state-IsStarted (omega arith)

porter_ctrl_write_line_total_example :
    porter_ctrl_write_line (wrote 1 ∷ interrupted ∷ wrote 2 ∷ wrote 9 ∷ []) (codes "OK")
    ≡ (codes "OK" ++ 10 ∷ [], some true)
porter_ctrl_write_line_total_example =
    porter_ctrl_write_line_total (wrote 1 ∷ interrupted ∷ wrote 2 ∷ wrote 9 ∷ []) (codes "OK")
      (omega arith, (tt, (omega arith, (omega arith, tt))))
      ((λ e. absurd (omega arith)), ((λ e. absurd (omega arith)), tt)) (omega arith)

porter_req-IsTerm_example : IsTerm (
    porter_req
      (codes "r")
      (codes "spawn_task")
      (record { pmix = true; argv = codes "ls" ∷ codes "a b" ∷ [] }))
porter_req-IsTerm_example =
    porter_req-IsTerm (codes "r") (codes "spawn_task")
      (record { pmix = true; argv = codes "ls" ∷ codes "a b" ∷ [] })
