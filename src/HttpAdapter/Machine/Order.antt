-- ===== src/HttpAdapter/Machine/Order.antt =====
-- Requests are made in the order in which their commands were dispatched.
use ingestion_lab_loadgen.Prelude.{
  All, All-append, All-mono, List, [], ap, arith, map, refl, subst, sym, ℕ, ◌++◌, ◌+◌, ◌<◌, ◌∙◌,
  ◌∷◌, ◌≡◌, ◌≤◌,
}
use ingestion_lab_loadgen.HttpAdapter.Machine.Events.{Event, happen_all}
use ingestion_lab_loadgen.HttpAdapter.Valid.{IsIncreasing}
use ingestion_lab_loadgen.HttpAdapter.Machine.{
  HttpAdapter, create_adapter, poll, publish, unsubscribe,
}
use ingestion_lab_loadgen.HttpAdapter.Requests.{SupportedCommand}
use ingestion_lab_loadgen.HttpAdapter.Machine.Steps.{
  Step, happen_all-keeps, released, stay, polled, published, subscribed, unsubscribed, ended,
  refused, queued, turned_down, posted, answered,
}

abbrev number_of : ℕ × SupportedCommand → ℕ
number_of entry = entry.0

-- The numbers of the commands that requests were made for, then of those that wait.
abbrev pub line : HttpAdapter → List ℕ
line a = map number_of a.posts ++ map number_of a.waiting

pub record IsOrderly (a : HttpAdapter) : Type 0 where
  pub increases : IsIncreasing (line a)
  pub given : All (λ n. n ≤ a.command_sequence) (line a)

IsIncreasing-append :
    (ns : List ℕ) (last : ℕ)
    → IsIncreasing ns
    → All (λ n. n < last) ns
    → IsIncreasing (ns ++ last ∷ [])
IsIncreasing-append [] last h k = (tt, tt)
IsIncreasing-append (n ∷ ns) last h k =
    (All-append _ ns _ h.0 (k.0, tt), IsIncreasing-append ns last h.1 k.1)

All-remove :
    (P : ℕ → Type 0) (ns : List ℕ) (n : ℕ) (ms : List ℕ) → All P (ns ++ n ∷ ms) → All P (ns ++ ms)
All-remove P [] n ms h = h.1
All-remove P (k ∷ ns) n ms h = (h.0, All-remove P ns n ms h.1)

IsIncreasing-remove :
    (ns : List ℕ) (n : ℕ) (ms : List ℕ) → IsIncreasing (ns ++ n ∷ ms) → IsIncreasing (ns ++ ms)
IsIncreasing-remove [] n ms h = h.1
IsIncreasing-remove (k ∷ ns) n ms h = (All-remove _ ns n ms h.0, IsIncreasing-remove ns n ms h.1)

-- The line before the first that waits is taken away from it.
line-first :
    (a : HttpAdapter) {id : ℕ} {command : SupportedCommand} {rest : List (ℕ × SupportedCommand)}
    → a.waiting ≡ (id, command) ∷ rest
    → line a ≡ map number_of a.posts ++ id ∷ map number_of rest
line-first a w = ap (λ q. map number_of a.posts ++ map number_of q) w

map-append :
    (xs ys : List (ℕ × SupportedCommand))
    → map number_of (xs ++ ys) ≡ map number_of xs ++ map number_of ys
map-append [] ys = refl
map-append (x ∷ xs) ys = ap (λ r. number_of x ∷ r) (map-append xs ys)

append_assoc : (xs ys zs : List ℕ) → (xs ++ ys) ++ zs ≡ xs ++ (ys ++ zs)
append_assoc [] ys zs = refl
append_assoc (x ∷ xs) ys zs = ap (λ r. x ∷ r) (append_assoc xs ys zs)

-- A command that joins the line at its end, with a number of its own.
line-queued :
    (a : HttpAdapter) (n : ℕ) (command : SupportedCommand)
    → map number_of a.posts ++ map number_of (a.waiting ++ (n, command) ∷ []) ≡ line a ++ n ∷ []
line-queued a n command =
    ap (λ r. map number_of a.posts ++ r) (map-append a.waiting _)
    ∙ sym (append_assoc (map number_of a.posts) (map number_of a.waiting) (n ∷ []))

-- A request that is made leaves the line as it is.
line-posted :
    (a : HttpAdapter) {id : ℕ} {command : SupportedCommand} {rest : List (ℕ × SupportedCommand)}
    → a.waiting ≡ (id, command) ∷ rest
    → map number_of (a.posts ++ (id, command) ∷ []) ++ map number_of rest ≡ line a
line-posted a {id = id} {rest = rest} w =
    ap (λ r. r ++ map number_of rest) (map-append a.posts _)
    ∙ append_assoc (map number_of a.posts) (id ∷ []) (map number_of rest)
    ∙ sym (line-first a w)

abbrev UpTo : ℕ → ℕ → Type 0
UpTo last n = n ≤ last

Step-IsOrderly : (a b : HttpAdapter) → Step a b → IsOrderly a → IsOrderly b
unfolding unsubscribe publish
Step-IsOrderly a _ (stay _) h = h
Step-IsOrderly a _ (polled _ d f) h = record { increases = h.increases; given = h.given }
Step-IsOrderly a _ (released _ d) h = record { increases = h.increases; given = h.given }
Step-IsOrderly a _ (published _ wire d v) h = record { increases = h.increases; given = h.given }
Step-IsOrderly a _ (subscribed _ listener listeners d) h = record {
  increases = h.increases;
  given = h.given;
}
Step-IsOrderly a _ (unsubscribed _ listener) h = record { increases = h.increases; given = h.given }
Step-IsOrderly a _ (ended _ d) h = record { increases = h.increases; given = h.given }
Step-IsOrderly a _ (refused _ r e) h = record {
  increases = h.increases;
  given = All-mono _ _ (line a) h.given (λ n l. omega arith);
}
Step-IsOrderly a _ (queued _ c d) h =
    let same = line-queued a (a.command_sequence + 1) c in
    record {
      increases = subst IsIncreasing (sym same) (
          IsIncreasing-append (line a) _ h.increases
            (All-mono _ _ (line a) h.given (λ n l. omega arith)));
      given = subst (All (UpTo (a.command_sequence + 1))) (sym same) (
          All-append _ (line a) _ (All-mono _ _ (line a) h.given (λ n l. omega arith))
            (omega arith, tt));
    }
Step-IsOrderly a _ (turned_down _ id c rest r s w e) h = record {
  increases =
      IsIncreasing-remove (map number_of a.posts) id (map number_of rest)
        (subst IsIncreasing (line-first a w) h.increases);
  given =
      All-remove (UpTo a.command_sequence) (map number_of a.posts) id (map number_of rest)
        (subst (All (UpTo a.command_sequence)) (line-first a w) h.given);
}
Step-IsOrderly a _ (posted _ id c rest s w d e) h = record {
  increases = subst IsIncreasing (sym (line-posted a w)) h.increases;
  given = subst (All (UpTo a.command_sequence)) (sym (line-posted a w)) h.given;
}
Step-IsOrderly a _ (answered _ id c r s e) h = record { increases = h.increases; given = h.given }

create_adapter-IsOrderly : IsOrderly create_adapter
unfolding create_adapter poll
create_adapter-IsOrderly = record { increases = tt; given = tt }

-- Whatever happens to a new adapter, the commands that requests were made for, followed by those
-- that wait, stand in the order in which they were dispatched.
pub happen_all-IsOrderly : (events : List Event) → IsOrderly (happen_all events create_adapter)
happen_all-IsOrderly events =
    happen_all-keeps IsOrderly Step-IsOrderly events create_adapter create_adapter-IsOrderly
