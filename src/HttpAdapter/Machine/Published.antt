-- ===== src/HttpAdapter/Machine/Published.antt =====
-- What the adapter publishes: nothing but what a response said that came in, or that there is none.
use ingestion_lab_loadgen.Prelude.{List}
use ingestion_lab_loadgen.Prelude.{Option, [], ◌∷◌}
use ingestion_lab_loadgen.HttpAdapter.Responses.{Response}
use ingestion_lab_loadgen.HttpAdapter.Machine.Events.{Event, poll_answered}
use ingestion_lab_loadgen.HttpAdapter.Machine.{HttpAdapter}

-- The responses to polls among the events, the latest first, before those of earlier events.
abbrev pub hear : Event → List (Option Response) → List (Option Response)
hear (poll_answered response) heard = response ∷ heard
hear other heard = heard

abbrev pub hear_all : List Event → List (Option Response) → List (Option Response)
hear_all [] heard = heard
hear_all (event ∷ events) heard = hear_all events (hear event heard)
