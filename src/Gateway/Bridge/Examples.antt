-- ===== src/Gateway/Bridge/Examples.antt =====
-- The bridge over a log that grows, with a poll that is not answered in between.
use parallel_workspace_serve.Prelude.{◌++◌, ◌≡◌, all, Bool, ltb, if◌then◌else◌}
use parallel_workspace_serve.Gateway.Bridge.Delivery.{concat}
use parallel_workspace_serve.Gateway.Bridge.Complete.{
  is_readable, IsOpen, AllOpen, bridge_output_complete, KeepsValid,
}
use parallel_workspace_serve.Prelude.{true, false, List, [], ◌∷◌, refl}
use parallel_workspace_serve.Supervisor.Evacuation.DirtyPaths.{Bytes}
use parallel_workspace_serve.Supervisor.Session.Terminal.{LogFile, log, missing, serve_output}
use parallel_workspace_serve.Gateway.Bridge.{Poll, bridge_output, frames}
use parallel_workspace_serve.Gateway.Bridge.Delivery.{AllBegin, Delivered, bridge_output-Delivered}

abbrev whole_log : Bytes
whole_log = 7 ∷ 8 ∷ 9 ∷ []

abbrev poll_of : LogFile → Poll
poll_of file = record { answered = true; file = file; writes = true; ended = false }

abbrev growing : List Poll
growing = poll_of missing ∷ poll_of (log (7 ∷ [])) ∷ poll_of (log (7 ∷ 8 ∷ 9 ∷ [])) ∷ []

growing-AllBegin : AllBegin whole_log growing
growing-AllBegin = (tt, ((8 ∷ 9 ∷ [], refl), (([], refl), tt)))

bridge_output-Delivered_example : Delivered whole_log 0 (bridge_output 0 growing)
bridge_output-Delivered_example = bridge_output-Delivered whole_log 0 growing growing-AllBegin

poll_of-IsOpen : (file : LogFile) → is_readable file ≡ true → IsOpen (poll_of file)
poll_of-IsOpen file e = record { answers = refl; reads = e; accepts = refl; stays = refl }

abbrev early : List Poll
early = poll_of missing ∷ poll_of (log (7 ∷ [])) ∷ []

early-AllOpen : AllOpen early
early-AllOpen = (poll_of-IsOpen missing refl, (poll_of-IsOpen (log (7 ∷ [])) refl, tt))

-- What encoding/json does to bytes that are no ASCII, in short.
abbrev is_ascii : Bytes → Bool
is_ascii text = all (λ c. ltb c 128) text

abbrev replaced : Bytes → Bytes
replaced text = if is_ascii text then text else 239 ∷ 191 ∷ 189 ∷ []

replaced-KeepsValid : KeepsValid is_ascii replaced
replaced-KeepsValid text e = rw e refl

ascii_sent : all is_ascii (bridge_output 0 (early ++ poll_of (log whole_log) ∷ [])).pieces ≡ true
unfolding bridge_output serve_output
ascii_sent = refl

bridge_output_complete_example :
    concat (frames replaced (bridge_output 0 (early ++ poll_of (log whole_log) ∷ []))) ≡ whole_log
bridge_output_complete_example =
    bridge_output_complete is_ascii replaced whole_log 0 early (poll_of (log whole_log))
      replaced-KeepsValid early-AllOpen (poll_of-IsOpen (log whole_log) refl) refl growing-AllBegin
      ascii_sent
