-- ===== src/Service/Contracts.antt =====
-- Contracts of the service's methods: one rule for each way to build a method.
use orbit_telemetry_orchestr.Prelude.{
  ◌≡◌, refl, Bool, true, false, Option, none, some, List, if◌then◌else◌, Result, ok, err, String, ℕ,
  Dict, subst, sym,
}
use orbit_telemetry_orchestr.Prelude.Exec.{Exec, continue, ◌>>=◌, return, lift, ignore, catch}
use orbit_telemetry_orchestr.Events.{Bus, Value}
use orbit_telemetry_orchestr.Queue.{Payload}
use orbit_telemetry_orchestr.Store.{Memory}
use orbit_telemetry_orchestr.Service.{
  App, Context, nil, live, done, now, ensure_context, query, update, published, emit, record_audit,
  submit_job, inc_metric, add_metric, next_id,
}

-- From a state with `P` the method ends in one with `P`, and a value that it returns has `Q`.
pub record Meets {S A : Type 0} (P : S → Type 0) (Q : A → Type 0) (m : Exec S A) : Type 0 where
  pub keeps : (s : S) → P s → P (m s).1
  pub gives : (s : S) → P s → (x : A) → (m s).0 ≡ ok x → Q x

-- No claim on the value.
abbrev pub Anything : {A : Type 0} → A → Type 0
Anything x = Unit

module _ {S A : Type 0} {P : S → Type 0} {Q : A → Type 0} where
  pub lift-Meets : (r : Result A) → ((x : A) → r ≡ ok x → Q x) → Meets P Q (lift r)
  lift-Meets r q = record { keeps = λ s p. p; gives = λ s p x h. q x h }

  pub read-Meets : (k : S → Exec S A) → ((s : S) → P s → Meets P Q (k s)) → Meets P Q (λ s. k s s)
  read-Meets k h = record {
    keeps = λ s p. (h s p).keeps s p;
    gives = λ s p x e. (h s p).gives s p x e;
  }

  pub if-Meets :
      (b : Bool) (m n : Exec S A)
      → (b ≡ true → Meets P Q m)
      → (b ≡ false → Meets P Q n)
      → Meets P Q (if b then m else n)
  if-Meets true m n hm hn = hm refl
  if-Meets false m n hm hn = hn refl

module _ {S A : Type 0} {P : S → Type 0} (Q : A → Type 0) where
  pub catch-Meets : (m : Exec S A) → Meets P Q m → Meets P (λ r. (x : A) → r ≡ ok x → Q x) (catch m)
  catch-Meets m h = record {
    keeps = λ s p. h.keeps s p;
    gives = λ s p r e x is_ok. h.gives s p x (cc);
  }

module _ {S A B : Type 0} {P : S → Type 0} (Q : A → Type 0) {R : B → Type 0} where
  continue-keeps :
      (r : Result A) (f : A → Exec S B) (s : S)
      → P s
      → ((x : A) → r ≡ ok x → Meets P R (f x))
      → P (continue r f s).1
  continue-keeps (ok x) f s p h = (h x refl).keeps s p
  continue-keeps (err e) f s p h = p

  continue-gives :
      (r : Result A) (f : A → Exec S B) (s : S)
      → P s
      → ((x : A) → r ≡ ok x → Meets P R (f x))
      → (y : B) → (continue r f s).0 ≡ ok y
      → R y
  continue-gives (ok x) f s p h y e = (h x refl).gives s p y e
  continue-gives (err c) f s p h y e = cc

  pub bind-Meets :
      (m : Exec S A) (f : A → Exec S B)
      → Meets P Q m
      → ((x : A) → Q x → Meets P R (f x))
      → Meets P R (m >>= f)
  bind-Meets m f hm hf = record {
    keeps = λ s p. continue-keeps (m s).0 f (m s).1 (hm.keeps s p) (λ x e. hf x (hm.gives s p x e));
    gives = λ s p. continue-gives (m s).0 f (m s).1 (hm.keeps s p) (λ x e. hf x (hm.gives s p x e));
  }

module _ {S A B : Type 0} {P : S → Type 0} {R : B → Type 0} where
  -- The rest of the method uses nothing of the value.
  pub then-Meets :
      (m : Exec S A) (f : A → Exec S B)
      → Meets P Anything m
      → ((x : A) → Meets P R (f x))
      → Meets P R (m >>= f)
  then-Meets m f hm hf = bind-Meets Anything m f hm (λ x q. hf x)

module _ {S A : Type 0} {P : S → Type 0} where
  pub any_lift-Meets : (r : Result A) → Meets P Anything (lift r)
  any_lift-Meets r = lift-Meets r (λ x e. tt)

  -- A result that only reads the state.
  pub any_reads-Meets : (r : S → Result A) → Meets P Anything (λ s. (r s, s))
  any_reads-Meets r = record { keeps = λ s p. p; gives = λ s p x e. tt }

  pub ignore-Meets : (m : Exec S A) → Meets P Anything m → Meets P Anything (ignore m)
  ignore-Meets m h = record { keeps = λ s p. h.keeps s p; gives = λ s p x e. tt }

  pub any_return-Meets : (x : A) → Meets P Anything (return x)
  any_return-Meets x = any_lift-Meets (ok x)

module _ {S A : Type 0} {P : S → Type 0} {Q : A → Type 0} where
  pub return-Meets : (x : A) → Q x → Meets P Q (return x)
  return-Meets x q = lift-Meets (ok x) (λ y e. subst Q (cc) q)

-- The rules of the service's own calls, for a property of the repository.
module _ {F : Type 0} (Inv : Memory F → Type 0) where
  abbrev pub Stored : App F → Type 0
  Stored a = Inv a.repository

  -- The call leaves the repository alone.
  pub silent-Meets :
      {A : Type 0} (m : Exec (App F) A)
      → ((a : App F) → (m a).1.repository ≡ a.repository)
      → Meets Stored Anything m
  silent-Meets m same = record { keeps = λ a p. subst Inv (sym (same a)) p; gives = λ a p x e. tt }

  pub query-Meets :
      {A : Type 0} {Q : A → Type 0} (f : Memory F → Result A)
      → ((m : Memory F) → Inv m → (x : A) → f m ≡ ok x → Q x)
      → Meets Stored Q (query f)
  query-Meets f h = record { keeps = λ a p. p; gives = λ a p x e. h a.repository p x e }

  pub update-Meets :
      (f : Memory F → Result (Unit {0}) × Memory F)
      → ((m : Memory F) → Inv m → Inv (f m).1)
      → Meets Stored Anything (update f)
  update-Meets f h = record { keeps = λ a p. h a.repository p; gives = λ a p x e. tt }

  pub ensure_context-Meets : (ctx : Context) → Meets Stored Anything (ensure_context ctx)
  unfolding ensure_context
  ensure_context-Meets nil = silent-Meets (ensure_context nil) (λ a. refl)
  ensure_context-Meets live = silent-Meets (ensure_context live) (λ a. refl)
  ensure_context-Meets done = silent-Meets (ensure_context done) (λ a. refl)

  pub now-Meets : Meets Stored Anything now
  unfolding now
  now-Meets = silent-Meets now (λ a. refl)

  repository-published : (o : Option Bus) (a : App F) → (published o a).1.repository ≡ a.repository
  unfolding published
  repository-published none a = refl
  repository-published (some b) a = refl

  pub emit-Meets :
      (type subject actor : String) (payload : List (String × Value))
      → Meets Stored Anything (emit type subject actor payload)
  unfolding emit now
  emit-Meets type subject actor payload =
      silent-Meets (emit type subject actor payload) (λ a. repository-published _ _)

  pub record_audit-Meets :
      (actor action resource id message : String) (changes : List (String × String))
      → Meets Stored Anything (record_audit actor action resource id message changes)
  unfolding record_audit now
  record_audit-Meets actor action resource id message changes =
      silent-Meets (record_audit actor action resource id message changes) (λ a. refl)

  pub submit_job-Meets :
      (type : String) (payload : Payload) → Meets Stored Anything (submit_job type payload)
  unfolding submit_job
  submit_job-Meets type payload = silent-Meets (submit_job type payload) (λ a. refl)

  pub inc_metric-Meets :
      (name : String) (labels : Dict String) → Meets Stored Anything (inc_metric name labels)
  unfolding inc_metric
  inc_metric-Meets name labels = silent-Meets (inc_metric name labels) (λ a. refl)

  pub add_metric-Meets : (name : String) (value : ℕ) → Meets Stored Anything (add_metric name value)
  unfolding add_metric
  add_metric-Meets name value = silent-Meets (add_metric name value) (λ a. refl)

  pub next_id-Meets : (prefix : String) → Meets Stored Anything (next_id prefix)
  unfolding next_id
  next_id-Meets prefix = silent-Meets (next_id prefix) (λ a. refl)
