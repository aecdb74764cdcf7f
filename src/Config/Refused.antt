-- ===== src/Config/Refused.antt =====
-- When `applyFile` fails.
use eregion.Prelude.{
  is_given, ℕ, ◌≡◌, refl, ◌∙◌, Bool, true, false, not, ◌||◌, ◌&&◌, Option, none, some, List, [],
  ◌∷◌, String, inl, inr, Bool-cases, ltb, ◌^◌,
}
use eregion.Prelude.Int.{ℤ, pos, ltb_ℤ}
use eregion.Prelude.Results.{is_ok, is_ok->>=}
use eregion.Prelude.Texts.{is_empty, trim_space}
use eregion.Config.Types.{
  Std, Config, ServerConfig, BackoffConfig, WorkersConfig, SocketConfig, ProtocolConfig,
}
use eregion.Config.File.{FileConfig, FileServer, FileWorkers, FileBackoff, FileSocket, FileProtocol}
use eregion.Config.Apply.{
  octal, accept_octal, accept_duration, parse_permission, apply_permission, apply_duration,
  apply_server, apply_backoff, apply_workers, apply_socket, apply_protocol, apply_file,
}

abbrev pub accepts : (String → Bool) → Option String → Bool
accepts p none = true
accepts p (some s) = p s

-- Whether every text that is given passes.
abbrev pub all_given : (String → Bool) → List (Option String) → Bool
all_given p [] = true
all_given p (o ∷ os) = let rest = all_given p os in accepts p o && rest

abbrev pub fits : Option ℤ → Bool
fits none = false
fits (some d) = not (ltb_ℤ d (pos 0))

abbrev pub is_mode : Option ℕ → Bool
is_mode none = false
is_mode (some n) = ltb n (2 ^ 32)

-- A text that is not blank and whose octal digits fit 32 bits.
abbrev pub is_permission : String → Bool
is_permission s = not (is_empty (trim_space s)) && is_mode (octal 0 (trim_space s))

abbrev pub server_durations : FileServer → List (Option String)
server_durations f =
    f.read_header_timeout ∷ f.read_timeout ∷ f.write_timeout ∷ f.idle_timeout ∷ f.shutdown_timeout
    ∷ []

abbrev pub worker_durations : {F : Type 0} → FileWorkers F → List (Option String)
worker_durations f =
    f.startup_timeout ∷ f.handshake_timeout ∷ f.request_timeout ∷ f.acquire_timeout
    ∷ f.shutdown_timeout ∷ f.restart_window ∷ f.restart_backoff.initial ∷ f.restart_backoff.maximum
    ∷ []

abbrev pub has_fixed : FileProtocol → Bool
has_fixed f = (is_given f.transport || is_given f.codec) || is_given f.handshake_timeout

accept_octal-is_ok : (field : String) (o : Option ℕ) → is_ok (accept_octal field o) ≡ is_mode o
accept_octal-is_ok field none = refl
accept_octal-is_ok field (some n) = elim (Bool-cases (ltb n (2 ^ 32))) [
  | inl e ↦ rw e refl
  | inr e ↦ rw e refl
]

parse_permission-is_ok :
    (raw field : String) → is_ok (parse_permission raw field) ≡ is_permission raw
unfolding parse_permission
parse_permission-is_ok raw field = elim (Bool-cases (is_empty (trim_space raw))) [
  | inl e ↦ rw e refl
  | inr e ↦ rw e (accept_octal-is_ok field (octal 0 (trim_space raw)))
]

apply_permission-is_ok :
    (kept : ℕ) (raw : Option String) (field : String)
    → is_ok (apply_permission kept raw field) ≡ accepts is_permission raw
unfolding apply_permission
apply_permission-is_ok kept none field = refl
apply_permission-is_ok kept (some raw) field = parse_permission-is_ok raw field

apply_socket-is_ok :
    (c : SocketConfig) (f : FileSocket)
    → is_ok (apply_socket c f)
      ≡ all_given is_permission (f.directory_permissions ∷ f.socket_permissions ∷ [])
unfolding apply_socket
apply_socket-is_ok c f =
    is_ok->>= _ _ (apply_permission-is_ok _ f.directory_permissions _)
      λ _. is_ok->>= _ _ (apply_permission-is_ok _ f.socket_permissions _) λ _. refl

apply_protocol-is_ok :
    (c : ProtocolConfig) (f : FileProtocol) → is_ok (apply_protocol c f) ≡ not (has_fixed f)
unfolding apply_protocol
apply_protocol-is_ok c f = elim (Bool-cases (is_given f.transport || is_given f.codec)) [
  | inl e ↦ rw e refl
  | inr e ↦ elim (Bool-cases (is_given f.handshake_timeout)) [
    | inl g ↦ rw (e, g) refl
    | inr g ↦ rw (e, g) refl
  ]
]

module _ (std : Std) where
  abbrev pub is_duration : String → Bool
  is_duration s = fits (std.parse_duration s)

  abbrev pub accepts_file : FileConfig std.F → Bool
  accepts_file f =
      all_given is_duration (server_durations f.server)
      && (all_given is_duration (worker_durations f.workers)
          && (all_given is_permission
                (f.socket.directory_permissions ∷ f.socket.socket_permissions ∷ [])
              && (not (has_fixed f.protocol) && accepts is_duration f.queue.retry_after)))

  accept_duration-is_ok : (field : String) (o : Option ℤ) → is_ok (accept_duration field o) ≡ fits o
  accept_duration-is_ok field none = refl
  accept_duration-is_ok field (some d) = elim (Bool-cases (ltb_ℤ d (pos 0))) [
    | inl e ↦ rw e refl
    | inr e ↦ rw e refl
  ]

  apply_duration-is_ok :
      (kept : ℤ) (raw : Option String) (field : String)
      → is_ok (apply_duration std kept raw field) ≡ accepts is_duration raw
  unfolding apply_duration
  apply_duration-is_ok kept none field = refl
  apply_duration-is_ok kept (some raw) field = accept_duration-is_ok field (std.parse_duration raw)

  apply_server-is_ok :
      (c : ServerConfig) (f : FileServer)
      → is_ok (apply_server std c f) ≡ all_given is_duration (server_durations f)
  unfolding apply_server
  apply_server-is_ok c f = is_ok->>= _ _ (apply_duration-is_ok _ f.read_header_timeout _) λ _.
      is_ok->>= _ _ (apply_duration-is_ok _ f.read_timeout _) λ _.
        is_ok->>= _ _ (apply_duration-is_ok _ f.write_timeout _) λ _.
          is_ok->>= _ _ (apply_duration-is_ok _ f.idle_timeout _)
            λ _. is_ok->>= _ _ (apply_duration-is_ok _ f.shutdown_timeout _) λ _. refl

  apply_backoff-is_ok :
      (c : BackoffConfig std.F) (f : FileBackoff std.F)
      → is_ok (apply_backoff std c f) ≡ all_given is_duration (f.initial ∷ f.maximum ∷ [])
  unfolding apply_backoff
  apply_backoff-is_ok c f =
      is_ok->>= _ _ (apply_duration-is_ok _ f.initial _)
        λ _. is_ok->>= _ _ (apply_duration-is_ok _ f.maximum _) λ _. refl

  and_true : (b : Bool) → (b && true) ≡ b
  and_true true = refl
  and_true false = refl

  apply_workers-is_ok :
      (c : WorkersConfig std.F) (f : FileWorkers std.F)
      → is_ok (apply_workers std c f) ≡ all_given is_duration (worker_durations f)
  unfolding apply_workers
  apply_workers-is_ok c f = is_ok->>= _ _ (apply_duration-is_ok _ f.startup_timeout _) λ _.
      is_ok->>= _ _ (apply_duration-is_ok _ f.handshake_timeout _) λ _.
        is_ok->>= _ _ (apply_duration-is_ok _ f.request_timeout _) λ _.
          is_ok->>= _ _ (apply_duration-is_ok _ f.acquire_timeout _) λ _.
            is_ok->>= _ _ (apply_duration-is_ok _ f.shutdown_timeout _) λ _.
              is_ok->>= _ _ (apply_duration-is_ok _ f.restart_window _) λ _.
                (is_ok->>= _ _ (apply_backoff-is_ok _ f.restart_backoff) (λ _. refl) ∙ and_true _)

  -- `applyFile` takes a file just where each duration it gives parses and is not negative, each permission
  -- is octal, not blank and fits 32 bits, and the protocol's fixed keys are left out; what the file is
  -- applied to does not matter.
  pub apply_file-is_ok :
      (c : Config std.F) (f : FileConfig std.F) → is_ok (apply_file std c f) ≡ accepts_file f
  unfolding apply_file
  apply_file-is_ok c f = is_ok->>= _ _ (apply_server-is_ok _ f.server) λ _.
      is_ok->>= _ _ (apply_workers-is_ok _ f.workers) λ _.
        is_ok->>= _ _ (apply_socket-is_ok _ f.socket) λ _.
          is_ok->>= _ _ (apply_protocol-is_ok _ f.protocol) λ _.
            (is_ok->>= _ _ (apply_duration-is_ok _ f.queue.retry_after _) (λ _. refl) ∙ and_true _)
