-- ===== src/Config/Sized.antt =====
-- The queue's capacity, for as long as it is derived from the number of workers.
use eregion.Prelude.{
  zero, suc, ◌*◌, ◌≡◌, refl, ap, ◌∙◌, arith, Bool, true, false, Option, none, some, inl, inr,
  Bool-cases,
}
use eregion.Prelude.Int.{ℤ, pos, negsuc, ltb_ℤ}
use eregion.Prelude.Results.{Result-cases, Ensures, Ensures-ok, Ensures-fail, Ensures->>=}
use eregion.Config.Types.{Std, Config, WorkersConfig}
use eregion.Config.Defaults.{bare_default, derived_queue_capacity, wrap_int}
use eregion.Config.File.{FileConfig, FileWorkers}
use eregion.Config.Paths.{resolve_endpoints}
use eregion.Config.Apply.{or_keep, choose_capacity, apply_workers, apply_file}
use eregion.Config.Validation.{validate, path_result-eq-ok}
use eregion.Config.Load.{
  file_result-eq-ok, valid_result-Ensures, Source, absent, decoded, Flags, override_queue,
  apply_cli_overrides, default, load, serve_config,
}

abbrev IsSized : {F : Type 0} → Config F → Type 0
IsSized c =
    c.queue_capacity_derived ≡ true → c.queue.capacity ≡ derived_queue_capacity c.workers.count

-- Eight places for each worker, and eight at least.
abbrev pub eight_each : ℤ → ℤ
eight_each (pos zero) = pos 8
eight_each (pos (suc n)) = wrap_int (8 * suc n)
eight_each (negsuc n) = pos 8

abbrev pub HasEightEach : {F : Type 0} → Config F → Type 0
HasEightEach c = c.queue_capacity_derived ≡ true → c.queue.capacity ≡ eight_each c.workers.count

derived_queue_capacity-eight_each : (n : ℤ) → derived_queue_capacity n ≡ eight_each n
unfolding derived_queue_capacity
derived_queue_capacity-eight_each (pos zero) = refl
derived_queue_capacity-eight_each (pos (suc n)) =
    let e : ltb_ℤ (pos (suc n)) (pos 1) ≡ false = ground arith in rw e (ap wrap_int (omega arith))
derived_queue_capacity-eight_each (negsuc n) = ground arith

choose_capacity-IsSized :
    (kept : ℤ) (derived : Bool) (count : ℤ) (n : Option ℤ) (given : Option ℤ)
    → (derived ≡ true → kept ≡ derived_queue_capacity count)
    → (choose_capacity kept derived n given).1 ≡ true
    → (choose_capacity kept derived n given).0 ≡ derived_queue_capacity (or_keep count given)
choose_capacity-IsSized kept derived count (some n) given h e = absurd (cc e)
choose_capacity-IsSized kept derived count none (some k) h e = refl
choose_capacity-IsSized kept derived count none none h e = h e

module _ {F : Type 0} where
  resolve_endpoints-IsSized : (c : Config F) → IsSized c → Ensures IsSized (resolve_endpoints c)
  unfolding resolve_endpoints
  resolve_endpoints-IsSized c h =
      Ensures->>= λ a _. Ensures->>= λ b _. Ensures->>= λ d _. Ensures->>= λ e _. Ensures-ok h

  capacity_overridden :
      (c : Config F) (flags : Flags)
      → ltb_ℤ (pos 0) flags.workers ≡ true
      → (apply_cli_overrides c flags).queue_capacity_derived ≡ true
      → (apply_cli_overrides c flags).queue.capacity
        ≡ derived_queue_capacity (apply_cli_overrides c flags).workers.count
  unfolding apply_cli_overrides override_queue
  capacity_overridden c flags g e = rw (g, e) refl

  apply_cli_overrides-IsSized :
      (c : Config F) (flags : Flags) → IsSized c → IsSized (apply_cli_overrides c flags)
  unfolding apply_cli_overrides override_queue
  apply_cli_overrides-IsSized c flags h e = elim (Bool-cases (ltb_ℤ (pos 0) flags.workers)) [
    | inl g ↦ capacity_overridden c flags g e
    | inr g ↦ rw g (h e)
  ]

module _ (std : Std) where
  apply_workers-count :
      (c : WorkersConfig std.F) (f : FileWorkers std.F)
      → Ensures (λ w. w.count ≡ or_keep c.count f.count) (apply_workers std c f)
  unfolding apply_workers
  apply_workers-count c f = Ensures->>= λ a _. Ensures->>= λ a _. Ensures->>= λ a _.
      Ensures->>= λ a _. Ensures->>= λ a _. Ensures->>= λ a _. Ensures->>= λ a _. Ensures-ok refl

  apply_file-IsSized :
      (c : Config std.F) (f : FileConfig std.F) → IsSized c → Ensures IsSized (apply_file std c f)
  unfolding apply_file
  apply_file-IsSized c f h = Ensures->>= λ s _. Ensures->>= λ w k. Ensures->>= λ a _.
      Ensures->>= λ b _. Ensures->>= λ r _. Ensures-ok λ e.
        rw ((apply_workers-count c.workers f.workers).holds w k) (
          choose_capacity-IsSized c.queue.capacity c.queue_capacity_derived c.workers.count
            f.queue.capacity f.workers.count h e)

  default-IsSized : (cpus : ℤ) → IsSized (default std cpus)
  unfolding default
  default-IsSized cpus = elim (Result-cases (resolve_endpoints (bare_default std cpus))) [
    | inl (c, e) ↦ rw e ((resolve_endpoints-IsSized (bare_default std cpus) (λ _. refl)).holds c e)
    | inr (_, e) ↦ rw e (λ _. refl)
  ]

  validate-IsSized : (c : Config std.F) → IsSized c → Ensures IsSized (validate std c)
  unfolding validate
  validate-IsSized c h = Ensures->>= λ _ _. Ensures->>= λ _ _. Ensures->>= λ _ _. Ensures->>= λ _ _.
      Ensures->>= λ _ _. Ensures->>= λ _ _. Ensures->>= λ _ _. Ensures->>= λ d e. Ensures->>= λ _ _.
        Ensures->>=
          λ _ _. Ensures-ok ((resolve_endpoints-IsSized c h).holds d (path_result-eq-ok e))

  load-IsSized : (cpus : ℤ) (source : Source std.F) → Ensures IsSized (load std cpus source)
  unfolding load
  load-IsSized cpus absent =
      valid_result-Ensures (validate-IsSized (default std cpus) (default-IsSized cpus))
  load-IsSized cpus (decoded file) = Ensures->>= λ c e. valid_result-Ensures (
      validate-IsSized c (
        (apply_file-IsSized (default std cpus) file (default-IsSized cpus)).holds c
          (file_result-eq-ok e)))
  load-IsSized cpus _ = Ensures-fail

  sized :
      (cpus : ℤ) (source : Source std.F) (flags : Flags)
      → Ensures IsSized (serve_config std cpus source flags)
  unfolding serve_config
  sized cpus source flags = Ensures->>= λ c e. valid_result-Ensures (
      validate-IsSized (apply_cli_overrides c flags)
        (apply_cli_overrides-IsSized c flags ((load-IsSized cpus source).holds c e)))

  -- Whatever the file and the flags say: in the configuration that `serve` runs on, a queue capacity that
  -- is still marked as derived is eight places for each worker it runs with, as 64 bits hold the product,
  -- and eight where that number is not positive.
  pub serve_config-IsSized :
      (cpus : ℤ) (source : Source std.F) (flags : Flags)
      → Ensures HasEightEach (serve_config std cpus source flags)
  serve_config-IsSized cpus source flags = record {
    holds = λ c e. λ d.
        (sized cpus source flags).holds c e d ∙ derived_queue_capacity-eight_each c.workers.count;
  }
