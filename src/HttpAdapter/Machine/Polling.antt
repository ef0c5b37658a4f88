-- ===== src/HttpAdapter/Machine/Polling.antt =====
-- The polling: one request at a time, whose answer is published as it came.
use Prim.Native.String.{String}
use ingestion_lab_loadgen.Prelude.{
  ◌∙◌, ◌∷◌, Bool, List, Option, [], ap, arith, false, filter, none, refl, some, subst, sym, true, ℕ,
  ◌+◌, ◌≡◌, ◌≤◌,
}
use ingestion_lab_loadgen.HttpAdapter.Machine.Events.{Event, happen_all}
use ingestion_lab_loadgen.HttpAdapter.Responses.Success.{decode_response-encode_snapshot}
use ingestion_lab_loadgen.HttpAdapter.Valid.{IsSnapshot}
use ingestion_lab_loadgen.HttpAdapter.Responses.{Response, is_json}
use ingestion_lab_loadgen.HttpAdapter.Machine.{
  HttpAdapter, abort, create_adapter, poll, poll_settled, publish, release, unsubscribe,
}
use ingestion_lab_loadgen.HttpAdapter.Wire.{WireSnapshot}
use ingestion_lab_loadgen.HttpAdapter.Encode.{encode_snapshot}
use ingestion_lab_loadgen.HttpAdapter.Machine.Steps.{
  queued, Step, happen_all-keeps, polled, released, stay, published, subscribed, unsubscribed,
  ended, refused, turned_down, posted, answered,
}
use ingestion_lab_loadgen.Prelude.{map, ◌++◌}
use ingestion_lab_loadgen.HttpAdapter.View.Restored.{Carries, create_snapshot-Carries}

-- The controller is there while a request is in flight, and is the last request's.
abbrev pub ControllerFits : Bool → Option ℕ → ℕ → Type 0
ControllerFits true controller polls = controller ≡ some polls
ControllerFits false controller polls = controller ≡ none

-- The timer is set, unless the adapter is disposed; then there are no listeners either.
abbrev pub LifeFits : Bool → Bool → List ℕ → Type 0
LifeFits true timer listeners = (timer ≡ false) × (listeners ≡ [])
LifeFits false timer listeners = timer ≡ true

-- Nothing is aborted before disposal, and then just the request that was in flight, while it is.
abbrev pub AbortsFit : Bool → Bool → List ℕ → ℕ → Type 0
AbortsFit false flight aborts polls = aborts ≡ []
AbortsFit true true aborts polls = aborts ≡ polls ∷ []
AbortsFit true false aborts polls = Unit

pub record IsSteady (a : HttpAdapter) : Type 0 where
  pub controller : ControllerFits a.request_in_flight a.active_controller a.polls
  pub life : LifeFits a.disposed a.timer_set a.listeners
  pub aborted : AbortsFit a.disposed a.request_in_flight a.aborts a.polls

AbortsFit-flight :
    (disposed before after : Bool) (aborts : List ℕ) (polls polls' : ℕ)
    → disposed ≡ false
    → AbortsFit disposed before aborts polls
    → AbortsFit disposed after aborts polls'
AbortsFit-flight true before after aborts polls polls' d h = cc
AbortsFit-flight false before after aborts polls polls' d h = h

AbortsFit-ended :
    (flight : Bool) (controller : Option ℕ) (polls : ℕ) (aborts : List ℕ)
    → ControllerFits flight controller polls
    → aborts ≡ []
    → AbortsFit true flight (abort controller aborts) polls
AbortsFit-ended true controller polls aborts c h =
    ap (λ o. abort o aborts) c ∙ ap (abort (some polls)) h
AbortsFit-ended false controller polls aborts c h = tt

alive-aborts :
    (disposed flight : Bool) (aborts : List ℕ) (polls : ℕ)
    → disposed ≡ false
    → AbortsFit disposed flight aborts polls
    → aborts ≡ []
alive-aborts true flight aborts polls d h = cc
alive-aborts false flight aborts polls d h = h

AbortsFit-released :
    (disposed flight : Bool) (aborts : List ℕ) (polls : ℕ)
    → disposed ≡ true
    → AbortsFit disposed flight aborts polls
    → AbortsFit disposed false aborts polls
AbortsFit-released true flight aborts polls d h = tt
AbortsFit-released false flight aborts polls d h = cc

release-none :
    (flight : Bool) (controller : Option ℕ) (polls : ℕ)
    → ControllerFits flight controller polls
    → release polls controller ≡ none
release-none true controller polls h = subst (λ c. release polls c ≡ none) (sym h) (ground arith)
release-none false controller polls h = subst (λ c. release polls c ≡ none) (sym h) refl

LifeFits-listeners :
    (disposed timer : Bool) (before after : List ℕ)
    → disposed ≡ false
    → LifeFits disposed timer before
    → LifeFits disposed timer after
LifeFits-listeners true timer before after d h = cc
LifeFits-listeners false timer before after d h = h

LifeFits-filter :
    (disposed timer : Bool) (test : ℕ → Bool) (listeners : List ℕ)
    → LifeFits disposed timer listeners
    → LifeFits disposed timer (filter test listeners)
LifeFits-filter true timer test listeners h = (h.0, ap (filter test) h.1)
LifeFits-filter false timer test listeners h = h

Step-IsSteady : (a b : HttpAdapter) → Step a b → IsSteady a → IsSteady b
unfolding unsubscribe publish
Step-IsSteady a _ (stay _) h = h
Step-IsSteady a _ (polled _ d f) h = record {
  aborted = AbortsFit-flight a.disposed _ _ a.aborts a.polls _ d h.aborted;
  controller = refl;
  life = h.life;
}
Step-IsSteady a _ (released _ d) h = record {
  aborted = AbortsFit-released a.disposed _ a.aborts a.polls d h.aborted;
  controller = release-none a.request_in_flight a.active_controller a.polls h.controller;
  life = h.life;
}
Step-IsSteady a _ (published _ wire d v) h = record {
  aborted = AbortsFit-flight a.disposed _ _ a.aborts a.polls _ d h.aborted;
  controller = release-none a.request_in_flight a.active_controller a.polls h.controller;
  life = h.life;
}
Step-IsSteady a _ (subscribed _ listener listeners d) h = record {
  aborted = h.aborted;
  controller = h.controller;
  life = LifeFits-listeners a.disposed a.timer_set a.listeners listeners d h.life;
}
Step-IsSteady a _ (unsubscribed _ listener) h = record {
  aborted = h.aborted;
  controller = h.controller;
  life = LifeFits-filter a.disposed a.timer_set _ a.listeners h.life;
}
Step-IsSteady a _ (ended _ d) h = record {
  aborted =
      AbortsFit-ended a.request_in_flight a.active_controller a.polls a.aborts h.controller
        (alive-aborts a.disposed _ a.aborts a.polls d h.aborted);
  controller = h.controller;
  life = (refl, refl);
}
Step-IsSteady a _ (refused _ r e) h = record {
  aborted = h.aborted;
  controller = h.controller;
  life = h.life;
}
Step-IsSteady a _ (queued _ c d) h = record {
  aborted = h.aborted;
  controller = h.controller;
  life = h.life;
}
Step-IsSteady a _ (turned_down _ id c rest r s w e) h = record {
  aborted = h.aborted;
  controller = h.controller;
  life = h.life;
}
Step-IsSteady a _ (posted _ id c rest s w d e) h = record {
  aborted = h.aborted;
  controller = h.controller;
  life = h.life;
}
Step-IsSteady a _ (answered _ id c r s e) h = record {
  aborted = h.aborted;
  controller = h.controller;
  life = h.life;
}

create_adapter-IsSteady : IsSteady create_adapter
unfolding create_adapter poll
create_adapter-IsSteady = record { controller = refl; life = refl; aborted = refl }

-- Whatever happens to a new adapter, its controller is there just while a request for a snapshot is in
-- flight, and is that request's; the timer is set until the adapter is disposed, and from then on there
-- are no listeners. Nothing is aborted before, and if a request is in flight after disposal, that
-- request alone has been aborted.
pub happen_all-IsSteady : (events : List Event) → IsSteady (happen_all events create_adapter)
happen_all-IsSteady events =
    happen_all-keeps IsSteady Step-IsSteady events create_adapter create_adapter-IsSteady

-- The response that carries a snapshot, with this status and header.
abbrev pub response_with : ℕ → String → WireSnapshot → Response
response_with status header wire = record {
  status = status;
  content_type = some header;
  body = some (encode_snapshot wire);
}

-- What an adapter is after it has published the response.
pub record Delivered (wire : WireSnapshot) (a b : HttpAdapter) : Type 0 where
  pub carried : Carries wire b.snapshot
  pub next : b.snapshot.revision ≡ a.snapshot.revision + 1
  pub told_all : b.notified ≡ a.notified ++ map (λ l. (l, b.snapshot)) a.listeners
  pub free : b.request_in_flight ≡ false
  pub listening : b.listeners ≡ a.listeners

-- A successful response that carries a valid snapshot, to the request in flight of an adapter that is
-- not disposed, becomes the adapter's snapshot: connected, with the next revision, and with nothing of
-- the response lost. Every listener is called with it, once and in order, and the listeners stay; the
-- next request may be made.
pub poll_settled-Delivered :
    (a : HttpAdapter) (status : ℕ) (header : String) (wire : WireSnapshot)
    → a.request_in_flight ≡ true
    → a.disposed ≡ false
    → 200 ≤ status × status ≤ 299
    → is_json (some header) ≡ true
    → IsSnapshot wire
    → Delivered wire a (poll_settled (some (response_with status header wire)) a)
unfolding poll_settled publish
poll_settled-Delivered a status header wire flight alive bounds json h =
    let read = decode_response-encode_snapshot status header wire bounds json h in
    rw (flight, alive, read)
      (record {
        carried = create_snapshot-Carries (a.snapshot.revision + 1) wire h;
        next = refl;
        told_all = refl;
        free = refl;
        listening = refl;
      })
