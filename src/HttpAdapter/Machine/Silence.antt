-- ===== src/HttpAdapter/Machine/Silence.antt =====
-- What a disposed `HttpAdapter` does: nothing that is seen outside.
use ingestion_lab_loadgen.Prelude.{List, arith, refl, true, ◌≡◌, Bool, [], false, if◌then◌else◌}
use ingestion_lab_loadgen.HttpAdapter.Machine.Events.{Event, happen_all}
use ingestion_lab_loadgen.HttpAdapter.Machine.{HttpAdapter, abort, dispose, unsubscribe}
use ingestion_lab_loadgen.HttpAdapter.Machine.Steps.{
  Step, happen_all-keeps, released, stay, polled, published, subscribed, unsubscribed, ended,
  refused, queued, turned_down, posted, answered,
}

-- Disposed, with the snapshot, the calls of listeners and the requests of before.
pub record IsSilentSince (a b : HttpAdapter) : Type 0 where
  pub disposed : b.disposed ≡ true
  pub snapshot : b.snapshot ≡ a.snapshot
  pub notified : b.notified ≡ a.notified
  pub polls : b.polls ≡ a.polls
  pub posts : b.posts ≡ a.posts

Step-IsSilentSince :
    (since a b : HttpAdapter) → Step a b → IsSilentSince since a → IsSilentSince since b
unfolding unsubscribe
Step-IsSilentSince since a _ (stay _) h = h
Step-IsSilentSince since a _ (polled _ d f) h = absurd (ground (arith, d, h.disposed))
Step-IsSilentSince since a _ (released _ d) h = record {
  disposed = h.disposed;
  snapshot = h.snapshot;
  notified = h.notified;
  polls = h.polls;
  posts = h.posts;
}
Step-IsSilentSince since a _ (published _ wire d v) h = absurd (ground (arith, d, h.disposed))
Step-IsSilentSince since a _ (subscribed _ listener listeners d) h =
    absurd (ground (arith, d, h.disposed))
Step-IsSilentSince since a _ (unsubscribed _ listener) h = record {
  disposed = h.disposed;
  snapshot = h.snapshot;
  notified = h.notified;
  polls = h.polls;
  posts = h.posts;
}
Step-IsSilentSince since a _ (ended _ d) h = record {
  disposed = refl;
  snapshot = h.snapshot;
  notified = h.notified;
  polls = h.polls;
  posts = h.posts;
}
Step-IsSilentSince since a _ (refused _ r e) h = record {
  disposed = h.disposed;
  snapshot = h.snapshot;
  notified = h.notified;
  polls = h.polls;
  posts = h.posts;
}
Step-IsSilentSince since a _ (queued _ c d) h = absurd (ground (arith, d, h.disposed))
Step-IsSilentSince since a _ (turned_down _ id c rest r s w e) h = record {
  disposed = h.disposed;
  snapshot = h.snapshot;
  notified = h.notified;
  polls = h.polls;
  posts = h.posts;
}
Step-IsSilentSince since a _ (posted _ id c rest s w d e) h = absurd (ground (arith, d, h.disposed))
Step-IsSilentSince since a _ (answered _ id c r s e) h = record {
  disposed = h.disposed;
  snapshot = h.snapshot;
  notified = h.notified;
  polls = h.polls;
  posts = h.posts;
}

end_unless-IsSilentSince :
    (a : HttpAdapter) (before : Bool)
    → a.disposed ≡ before
    → IsSilentSince a (
        if before then a else record a {
          disposed = true;
          timer_set = false;
          aborts = abort a.active_controller a.aborts;
          listeners = [];
        })
end_unless-IsSilentSince a true e = record {
  disposed = e;
  snapshot = refl;
  notified = refl;
  polls = refl;
  posts = refl;
}
end_unless-IsSilentSince a false e = record {
  disposed = refl;
  snapshot = refl;
  notified = refl;
  polls = refl;
  posts = refl;
}

dispose-IsSilentSince : (a : HttpAdapter) → IsSilentSince a (dispose a)
unfolding dispose
dispose-IsSilentSince a = end_unless-IsSilentSince a a.disposed refl

-- After `dispose`, whatever happens and whatever answers come in, the snapshot stays, no listener is
-- called, and no request is made.
pub happen_all-IsSilentSince :
    (a : HttpAdapter) (events : List Event) → IsSilentSince a (happen_all events (dispose a))
happen_all-IsSilentSince a events =
    happen_all-keeps (IsSilentSince a) (Step-IsSilentSince a) events (dispose a)
      (dispose-IsSilentSince a)
