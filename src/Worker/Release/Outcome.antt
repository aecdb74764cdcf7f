-- ===== src/Worker/Release/Outcome.antt =====
-- What becomes of a worker that a request gives back.
use eregion.Prelude.{
  ℕ, zero, suc, ◌^◌, ◌≤◌, ◌<◌, ◌≡◌, refl, sym, ap, Bool, true, false, ◌&&◌, ◌||◌, Option, none,
  some, List, [], ◌∷◌, ◌++◌, ltb, leb, if◌then◌else◌, length, get_elem?, arith, modify, inl, inr,
  ◌⊎◌, ◌↔◌, get_elem?-modify_self, get_elem?-set_self, get_elem?-lt, Bool-cases,
}
use mathlib.Core.Path.{subst}
use eregion.Worker.Types.{
  idle, draining, Config, Slot, Worker, Pool, with_state, slot_at, put_slot, worker_at, is_current,
  is_retired, send_idle,
}
use eregion.Worker.Release.{
  Meta, ending, returning, recycle_reason, handled_after, release_section, release, retire_worker,
  count_request, is_some, finish_release, note_recycle, memory_limit,
}

-- Why a worker should be recycled, after `handled` requests and with this response.
pub data MustRecycle (cfg : Config) (handled : ℕ) (resp : Option Meta) : Type 0 where
  asked : (m : Meta) → resp ≡ some m → m.recycle ≡ true → MustRecycle cfg handled resp
  worn : 0 < cfg.max_requests → cfg.max_requests ≤ handled → MustRecycle cfg handled resp
  bloated :
      (m : Meta)
      → resp ≡ some m
      → 0 < cfg.memory_limit_mb
      → 0 < m.memory_usage
      → memory_limit cfg ≤ m.memory_usage
      → MustRecycle cfg handled resp

recycle_reason-of_MustRecycle :
    (cfg : Config) (handled : ℕ) (resp : Option Meta)
    → handled < 2 ^ 63
    → MustRecycle cfg handled resp
    → is_some (recycle_reason cfg handled resp) ≡ true
unfolding recycle_reason
recycle_reason-of_MustRecycle cfg handled resp small (asked m e r) = ground arith
recycle_reason-of_MustRecycle cfg handled resp small (worn lo hi) = ground arith
recycle_reason-of_MustRecycle cfg handled resp small (bloated m e lo used hi) = ground arith

MustRecycle-of_reason :
    (cfg : Config) (handled : ℕ) (resp : Option Meta)
    → is_some (recycle_reason cfg handled resp) ≡ true
    → MustRecycle cfg handled resp
unfolding recycle_reason
MustRecycle-of_reason cfg handled none h = worn (ground arith) (ground arith)
MustRecycle-of_reason cfg handled (some m) h = elim (Bool-cases m.recycle) [
  | inl r ↦ asked m refl r
  | inr r ↦ elim (Bool-cases (ltb 0 cfg.max_requests && leb cfg.max_requests handled)) [
    | inl w ↦ worn (ground arith) (ground arith)
    | inr w ↦ bloated m refl (ground arith) (ground arith) (ground arith)
  ]
]

-- A worker is recycled exactly if its response asks for it, or a limit on requests is set and it
-- has handled so many, or a limit on memory is set and it reports at least so much; for counts of
-- requests below 2 ^ 63.
pub recycle_reason_iff :
    (cfg : Config) (handled : ℕ) (resp : Option Meta)
    → handled < 2 ^ 63
    → (is_some (recycle_reason cfg handled resp) ≡ true) ↔ MustRecycle cfg handled resp
recycle_reason_iff cfg handled resp small =
    (MustRecycle-of_reason cfg handled resp, recycle_reason-of_MustRecycle cfg handled resp small)

-- The worker goes back to work: it is idle, counts one more request, and is sent to the channel.
pub record IsKept (p q : Pool) (a : ℕ) (w : Worker) : Type 0 where
  pub idles : worker_at q a ≡ some (record w { state = idle; requests_handled = handled_after w })
  pub sent :
      q.channel
      ≡ (if ltb (length p.channel) p.channel_cap then p.channel ++ (a ∷ []) else p.channel)
  pub slots_same : q.slots ≡ p.slots

-- The worker goes to its end: it is draining, signalled and closed, its slot expects the exit, and
-- it is not sent to the channel.
pub record IsEnding (p q : Pool) (a : ℕ) (w : Worker) (s : Slot) : Type 0 where
  pub drains :
      worker_at q a
      ≡ some (record w {
        state = draining;
        requests_handled = handled_after w;
        closed = true;
        signalled = true;
      })
  pub unsent : q.channel ≡ p.channel
  pub expected : slot_at q.slots w.slot ≡ some (record s { planned_exit = true })

-- Why a worker does not go back to the channel.
abbrev pub MustEnd : Pool → Slot → ℕ → Option Meta → Type 0
MustEnd p s handled resp =
    (p.stopping ≡ true)
    ⊎ (MustRecycle p.cfg handled resp ⊎ ((s.retired ≡ true) ⊎ (p.desired < s.index)))

put_slot_self :
    (slots : List Slot) (k : ℕ) (s t : Slot)
    → slot_at slots k ≡ some s
    → slot_at (put_slot slots k t) k ≡ some t
put_slot_self slots zero s t h = cc
put_slot_self slots (suc k) s t h = get_elem?-set_self slots k t (get_elem?-lt slots k h)

abbrev pub ends : Pool → Worker → Slot → Option Meta → Bool
ends p w s resp =
    p.stopping || (is_some (recycle_reason p.cfg (handled_after w) resp) || is_retired p s)

module _ (p : Pool) (a : ℕ) (w : Worker) (s : Slot) (resp : Option Meta)
    (found : worker_at p a ≡ some w) (of_slot : slot_at p.slots w.slot ≡ some s)
    (current : is_current p s w ≡ true) where
  abbrev pub counted : List Worker
  counted = modify count_request p.heap a

  pub section_kept :
      ends p w s resp ≡ false
      → release_section p a resp
        ≡ (record p { heap = modify (with_state idle) counted a }, returning)
  unfolding release_section
  section_kept e = ground arith

  pub section_ending :
      ends p w s resp ≡ true
      → release_section p a resp ≡ (
        record p {
          heap = modify retire_worker counted a;
          slots = put_slot p.slots w.slot (record s { planned_exit = true });
          recycled = note_recycle (recycle_reason p.cfg (handled_after w) resp) p.recycled;
        },
        ending,
      )
  unfolding release_section
  section_ending e = ground arith

  twice : (f : Worker → Worker) → get_elem? (modify f counted a) a ≡ some (f (count_request w))
  twice f =
      get_elem?-modify_self f counted a (count_request w)
        (get_elem?-modify_self count_request p.heap a w found)

  release-IsKept : ends p w s resp ≡ false → IsKept p (release p a resp) a w
  unfolding release
  release-IsKept e =
      let q = record p { heap = modify (with_state idle) counted a } in
      subst (λ r. IsKept p r a w) (sym (ap (finish_release a) (section_kept e)))
        (unfold send_idle finish_release in
          record {
            idles = ground (arith, twice (with_state idle));
            sent = ground arith;
            slots_same = ground arith;
          })

  release-IsEnding : ends p w s resp ≡ true → IsEnding p (release p a resp) a w s
  unfolding release
  release-IsEnding e =
      subst (λ r. IsEnding p r a w s) (sym (ap (finish_release a) (section_ending e)))
        (unfold finish_release in
          record {
            drains = twice retire_worker;
            unsent = refl;
            expected = put_slot_self p.slots w.slot s (record s { planned_exit = true }) of_slot;
          })

  MustEnd-ends :
      MustEnd p s (handled_after w) resp → handled_after w < 2 ^ 63 → ends p w s resp ≡ true
  MustEnd-ends (inl h) small = ground arith
  MustEnd-ends (inr (inl h)) small =
      let r = recycle_reason-of_MustRecycle p.cfg (handled_after w) resp small h in ground arith
  MustEnd-ends (inr (inr (inl h))) small = ground arith
  MustEnd-ends (inr (inr (inr h))) small = ground arith

  ends-MustEnd : ends p w s resp ≡ true → MustEnd p s (handled_after w) resp
  ends-MustEnd e = elim (Bool-cases p.stopping) [
    | inl h ↦ inl h
    | inr running ↦ elim (Bool-cases (is_some (recycle_reason p.cfg (handled_after w) resp))) [
      | inl r ↦ inr (inl (MustRecycle-of_reason p.cfg (handled_after w) resp r))
      | inr fresh ↦ elim (Bool-cases s.retired) [
        | inl h ↦ inr (inr (inl h))
        | inr within ↦ inr (inr (inr (ground arith)))
      ]
    ]
  ]

-- What `Release` does with the worker of a slot: it goes to its end, draining, signalled and never
-- sent to the channel, exactly if the pool is stopping, the worker must be recycled, or its slot is
-- retired or above the pool's size; otherwise it is idle again, with one more request counted, and
-- is sent to the channel. For counts of requests below 2 ^ 63.
pub release_outcome :
    (p : Pool) (a : ℕ) (w : Worker) (s : Slot) (resp : Option Meta)
    → worker_at p a ≡ some w
    → slot_at p.slots w.slot ≡ some s
    → is_current p s w ≡ true
    → handled_after w < 2 ^ 63
    → MustEnd p s (handled_after w) resp × IsEnding p (release p a resp) a w s
      ⊎ (¬ MustEnd p s (handled_after w) resp) × IsKept p (release p a resp) a w
release_outcome p a w s resp found of_slot current small = elim (Bool-cases (ends p w s resp)) [
  | inl e ↦ inl (
    ends-MustEnd p a w s resp found of_slot current e,
    release-IsEnding p a w s resp found of_slot current e,
  )
  | inr e ↦ inr (
    λ h. cc (MustEnd-ends p a w s resp found of_slot current h small, e),
    release-IsKept p a w s resp found of_slot current e,
  )
]
