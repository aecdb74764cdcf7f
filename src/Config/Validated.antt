-- ===== src/Config/Validated.antt =====
-- What a configuration that `Validate` accepts satisfies.
use eregion.Prelude.{
  ◌≡◌, refl, Bool, true, false, not, Option, none, some, List, String, inl, inr, Option-cases,
  arith,
}
use eregion.Prelude.Int.{ℤ, pos, ◌≤ℤ◌, ◌<ℤ◌}
use eregion.Prelude.Results.{
  Result, ok, fail, IsPassed, first_error, first_error-IsPassed, Ensures, Ensures-ok, Ensures-fail,
  Ensures->>=,
}
use eregion.Workload.Model.{ResolvedWorkloadSpec}
use eregion.Config.Types.{
  Std, Config, ServerConfig, PhpConfig, WorkersConfig, ProtocolConfig, QueueConfig, LoggingConfig,
}
use eregion.Config.Paths.{PathError, resolve_endpoints, endpoints}
use eregion.Config.Workloads.{WorkloadsError, resolve_workloads}
use eregion.Config.Validation.{
  ValidationError, endpoint_check, workloads_result, logging_checks, path_result-eq-ok, is_blank,
  is_level, is_format, server_checks, php_checks, worker_checks, other_checks, passes, validate,
}
use eregion.Config.Distinct.{
  AreDistinct, collision-AreDistinct, AreRooted, resolve_endpoints-AreRooted,
}

abbrev pub IsPositive : ℤ → Type 0
IsPositive d = pos 0 <ℤ d

pub record ServerIsValid (s : ServerConfig) : Type 0 where
  pub port : (pos 1 ≤ℤ s.port) × (s.port ≤ℤ pos 65535)
  pub max_header_bytes : IsPositive s.max_header_bytes
  pub max_body_bytes : IsPositive s.max_body_bytes
  pub read_header_timeout : IsPositive s.read_header_timeout
  pub read_timeout : IsPositive s.read_timeout
  pub write_timeout : IsPositive s.write_timeout
  pub idle_timeout : IsPositive s.idle_timeout
  pub shutdown_timeout : IsPositive s.shutdown_timeout

pub record WorkersIsValid {F : Type 0} (w : WorkersConfig F) : Type 0 where
  pub count : pos 1 ≤ℤ w.count
  pub min_ready : (pos 0 ≤ℤ w.min_ready) × (w.min_ready ≤ℤ w.count)
  pub max_requests : pos 0 ≤ℤ w.max_requests
  pub memory_limit_mb : pos 0 ≤ℤ w.memory_limit_mb
  pub startup_timeout : IsPositive w.startup_timeout
  pub handshake_timeout : IsPositive w.handshake_timeout
  pub request_timeout : IsPositive w.request_timeout
  pub acquire_timeout : IsPositive w.acquire_timeout
  pub shutdown_timeout : IsPositive w.shutdown_timeout
  pub restart_limit : pos 0 ≤ℤ w.restart_limit
  pub restart_window : IsPositive w.restart_window
  pub initial : IsPositive w.restart_backoff.initial
  pub maximum : IsPositive w.restart_backoff.maximum

passes-IsPassed : (cs : List (Bool × ValidationError)) → Ensures (λ _. IsPassed cs) (passes cs)
passes-IsPassed cs = elim (Option-cases (first_error cs)) [
  | inl e ↦ rw e (Ensures-ok (first_error-IsPassed cs e))
  | inr (x, e) ↦ rw e Ensures-fail
]

server_passed : (s : ServerConfig) → IsPassed (server_checks s) → ServerIsValid s
server_passed s (_, (p, (h, (b, (t, _))))) = record {
  port = ground (arith, p);
  max_header_bytes = ground (arith, h);
  max_body_bytes = ground (arith, b);
  read_header_timeout = ground (arith, t);
  read_timeout = ground (arith, t);
  write_timeout = ground (arith, t);
  idle_timeout = ground (arith, t);
  shutdown_timeout = ground (arith, t);
}

pub record LimitsIsValid (s : ServerConfig) (p : ProtocolConfig) (q : QueueConfig) : Type 0 where
  pub version : p.version ≡ 1
  pub frame : s.max_body_bytes <ℤ pos p.max_frame_bytes
  pub capacity : pos 0 ≤ℤ q.capacity
  pub retry_after : pos 0 ≤ℤ q.retry_after

pub record TextsIsValid (p : PhpConfig) (l : LoggingConfig) : Type 0 where
  pub binary : is_blank p.binary ≡ false
  pub worker_script : is_blank p.worker_script ≡ false
  pub working_directory : is_blank p.working_directory ≡ false
  pub level : is_level l.level ≡ true
  pub format : is_format l.format ≡ true

true_of_not : {b : Bool} → not b ≡ false → b ≡ true
true_of_not {b = true} h = refl
true_of_not {b = false} h = absurd (cc h)

collision_passed : {o : Option PathError} {x : List String} → endpoint_check o ≡ ok x → o ≡ none
collision_passed {o = none} h = refl
collision_passed {o = some e} h = absurd (cc h)

workloads_passed :
    {rs : List ResolvedWorkloadSpec} {r : Result WorkloadsError (List ResolvedWorkloadSpec)}
    → workloads_result r ≡ ok rs
    → r ≡ ok rs
workloads_passed {r = ok a} h = cc
workloads_passed {r = fail e} h = absurd (cc h)

texts_passed :
    (p : PhpConfig) (l : LoggingConfig)
    → IsPassed (php_checks p)
    → IsPassed (logging_checks l)
    → TextsIsValid p l
texts_passed p l (b, (s, (w, _))) (v, (f, _)) = record {
  binary = b;
  worker_script = s;
  working_directory = w;
  level = true_of_not v;
  format = true_of_not f;
}

module _ {F : Type 0} where
  -- What does not depend on the endpoints' paths.
  abbrev pub IsRunnable : Config F → Type 0
  IsRunnable c =
      ServerIsValid c.server
      × WorkersIsValid c.workers
      × LimitsIsValid c.server c.protocol c.queue
      × TextsIsValid c.php c.logging

  resolve_endpoints-IsRunnable :
      (c : Config F) → IsRunnable c → Ensures IsRunnable (resolve_endpoints c)
  unfolding resolve_endpoints
  resolve_endpoints-IsRunnable c h =
      Ensures->>= λ _ _. Ensures->>= λ _ _. Ensures->>= λ _ _. Ensures->>= λ _ _. Ensures-ok h

module _ (std : Std) where
  workers_passed : (w : WorkersConfig std.F) → IsPassed (worker_checks std w) → WorkersIsValid w
  workers_passed w (n, (r, (q, (m, (t, (l, (d, (b, _)))))))) = record {
    count = ground (arith, n);
    min_ready = ground (arith, r);
    max_requests = ground (arith, q);
    memory_limit_mb = ground (arith, m);
    startup_timeout = ground (arith, t);
    handshake_timeout = ground (arith, t);
    request_timeout = ground (arith, t);
    acquire_timeout = ground (arith, t);
    shutdown_timeout = ground (arith, t);
    restart_limit = ground (arith, l);
    restart_window = ground (arith, d);
    initial = ground (arith, b);
    maximum = ground (arith, b);
  }

  limits_passed :
      (c : Config std.F) → IsPassed (other_checks std c) → LimitsIsValid c.server c.protocol c.queue
  limits_passed c (_, (v, (_, (f, (q, (r, _)))))) = record {
    version = ground (arith, v);
    frame = ground (arith, f);
    capacity = ground (arith, q);
    retry_after = ground (arith, r);
  }

  -- What `Validate` promises of the configuration that it leaves behind.
  pub record IsValid (d : Config std.F) : Type 0 where
    pub runnable : IsRunnable d
    pub rooted : AreRooted d
    pub distinct : AreDistinct (endpoints d)
    pub workloads : (rs : List ResolvedWorkloadSpec) × (resolve_workloads std d ≡ ok rs)

  -- A configuration that passes `Validate` has positive timeouts and sizes, a port from 1 to 65535, between
  -- 0 and `count` workers to be ready with `count` at least 1, a frame limit above the body limit, texts
  -- that are not blank, rooted endpoint paths that differ where enabled, and workloads that resolve.
  pub validate-IsValid : (c : Config std.F) → Ensures IsValid (validate std c)
  unfolding validate
  validate-IsValid c = Ensures->>= λ _ _. Ensures->>= λ _ s. Ensures->>= λ _ p. Ensures->>= λ _ w.
      Ensures->>= λ _ o. Ensures->>= λ _ l. Ensures->>= λ _ _. Ensures->>= λ d e. Ensures->>= λ _ f.
        Ensures->>= λ rs g. Ensures-ok (record {
          runnable =
              (resolve_endpoints-IsRunnable c (
                server_passed c.server ((passes-IsPassed (server_checks c.server)).holds _ s),
                workers_passed c.workers
                    ((passes-IsPassed (worker_checks std c.workers)).holds _ w),
                limits_passed c ((passes-IsPassed (other_checks std c)).holds _ o),
                texts_passed c.php c.logging ((passes-IsPassed (php_checks c.php)).holds _ p)
                    ((passes-IsPassed (logging_checks c.logging)).holds _ l),
              )).holds
                d (path_result-eq-ok e);
          rooted = (resolve_endpoints-AreRooted c).holds d (path_result-eq-ok e);
          distinct = collision-AreDistinct (endpoints d) (collision_passed f);
          workloads = (rs, workloads_passed g);
        })
