-- ===== src/Worker/System/Races.antt =====
-- Two interleavings that the locks of pool.go allow.
use eregion.Prelude.{
  ℕ, zero, suc, ◌+◌, ◌%◌, ◌^◌, ◌≤◌, ◌≡◌, refl, sym, ap, ◌∙◌, false, Option, some, List, [], ◌∷◌,
  ◌++◌, length, get_elem?, arith, length-append, some_eq, get_elem?-append_left,
  get_elem?-append_end, get_elem?-set_self, get_elem?-lt,
}
use mathlib.Core.Path.{subst}
use eregion.Worker.Types.{idle, Slot, Worker, Pool, worker_at, slot_at, put_slot}
use eregion.Worker.Boot.{Ticket, started, boot_begin, boot_install}

-- A slot that `bootSlot` accepts.
pub record IsOpen (p : Pool) (k : ℕ) (s : Slot) : Type 0 where
  pub found : slot_at p.slots k ≡ some s
  pub running : p.stopping ≡ false
  pub kept : s.retired ≡ false
  pub within : s.index ≤ p.desired

put_slot_self :
    (slots : List Slot) (k : ℕ) (s t : Slot)
    → slot_at slots k ≡ some s
    → slot_at (put_slot slots k t) k ≡ some t
put_slot_self slots zero s t h = cc
put_slot_self slots (suc k) s t h = get_elem?-set_self slots k t (get_elem?-lt slots k h)

abbrev pub next_generation : Slot → ℕ
next_generation s = (s.generation + 1) % 2 ^ 64

abbrev pub begun : Slot → Slot
begun s = record s { generation = next_generation s }

abbrev pub ticket : Slot → Ticket
ticket s = record {
  slot = s.index;
  generation = next_generation s;
  restart_count = s.restart_count;
}

boot_begin_open :
    (p : Pool) (k : ℕ) (s : Slot)
    → IsOpen p k s
    → boot_begin p k ≡ (record p { slots = put_slot p.slots k (begun s) }, some (ticket s))
unfolding boot_begin
boot_begin_open p k s o = ground arith

abbrev installed : Slot → ℕ → Slot
installed s a = record s { worker = some a; planned_exit = false; failures = 0 }

boot_install_open :
    (p : Pool) (k : ℕ) (s : Slot) (w : Worker)
    → IsOpen p k s
    → boot_install p k w ≡ (
      record p {
        heap = p.heap ++ (w ∷ []);
        slots = put_slot p.slots k (installed s (length p.heap));
      },
      some (length p.heap),
    )
unfolding boot_install
boot_install_open p k s w o = ground arith

-- Two boots of one slot whose starts overlap: both begin before either installs its worker.
abbrev pub begun_twice : Pool → ℕ → Pool
begun_twice p k = (boot_begin (boot_begin p k).0 k).0

abbrev pub booted_twice : Pool → ℕ → Worker → Worker → Pool
booted_twice p k v w = (boot_install (boot_install (begun_twice p k) k v).0 k w).0

boot_begin-IsOpen :
    (p : Pool) (k : ℕ) (s : Slot) → IsOpen p k s → IsOpen (boot_begin p k).0 k (begun s)
boot_begin-IsOpen p k s o =
    subst (λ (r : Pool × Option Ticket). IsOpen r.0 k (begun s)) (sym (boot_begin_open p k s o))
      (record {
        found = put_slot_self p.slots k s (begun s) o.found;
        running = o.running;
        kept = o.kept;
        within = o.within;
      })

boot_install-IsOpen :
    (p : Pool) (k : ℕ) (s : Slot) (w : Worker)
    → IsOpen p k s
    → IsOpen (boot_install p k w).0 k (installed s (length p.heap))
boot_install-IsOpen p k s w o =
    subst (λ (r : Pool × Option ℕ). IsOpen r.0 k (installed s (length p.heap)))
      (sym (boot_install_open p k s w o))
      (record {
        found = put_slot_self p.slots k s (installed s (length p.heap)) o.found;
        running = o.running;
        kept = o.kept;
        within = o.within;
      })

-- What two overlapping boots of slot `k` leave behind.
pub record IsOrphaned (p q : Pool) (k : ℕ) (v : Worker) : Type 0 where
  pub alive : worker_at q (length p.heap) ≡ some v
  pub replaced : (s : Slot) → slot_at q.slots k ≡ some s → s.worker ≡ some (length p.heap + 1)

heap-boot_begin : (p : Pool) (k : ℕ) → (boot_begin p k).0.heap ≡ p.heap
unfolding boot_begin
heap-boot_begin p k = ground arith

heap-boot_install :
    (p : Pool) (k : ℕ) (s : Slot) (w : Worker)
    → IsOpen p k s
    → (boot_install p k w).0.heap ≡ p.heap ++ (w ∷ [])
heap-boot_install p k s w o = ap (λ (r : Pool × Option ℕ). r.0.heap) (boot_install_open p k s w o)

-- `bootSlot` looks at neither the slot's worker nor its generation when it installs one. So on any
-- slot that may boot, two boots whose starts overlap (such as one after a crash and one of a
-- scale-up) both get a ticket and both install a worker: the first worker stays alive, idle and
-- unsignalled in the heap, and is not the slot's any more, whose worker is the second.
pub booted_twice-IsOrphaned :
    (p : Pool) (k : ℕ) (s : Slot)
    → IsOpen p k s
    → let v = started (ticket s) in
      let w = started (ticket (begun s)) in
      ((boot_begin p k).1 ≡ some (ticket s))
      × ((boot_begin (boot_begin p k).0 k).1 ≡ some (ticket (begun s)))
      × (v.state ≡ idle)
      × (v.signalled ≡ false)
      × IsOrphaned p (booted_twice p k v w) k v
booted_twice-IsOrphaned p k s o =
    let v = started (ticket s) in
    let w = started (ticket (begun s)) in
    let p1 = (boot_begin p k).0 in
    let o1 = boot_begin-IsOpen p k s o in
    let p2 = (boot_begin p1 k).0 in
    let o2 = boot_begin-IsOpen p1 k (begun s) o1 in
    let p3 = (boot_install p2 k v).0 in
    let o3 = boot_install-IsOpen p2 k (begun (begun s)) v o2 in
    let o4 = boot_install-IsOpen p3 k (installed (begun (begun s)) (length p2.heap)) w o3 in
    let same : p2.heap ≡ p.heap = heap-boot_begin p1 k ∙ heap-boot_begin p k in
    let h3 : p3.heap ≡ p.heap ++ (v ∷ []) =
      heap-boot_install p2 k (begun (begun s)) v o2
      ∙ ap (λ (h : List Worker). h ++ (v ∷ [])) same in
    let h4 = heap-boot_install p3 k (installed (begun (begun s)) (length p2.heap)) w o3 in
    (
      ap (λ (r : Pool × Option Ticket). r.1) (boot_begin_open p k s o),
      ap (λ (r : Pool × Option Ticket). r.1) (boot_begin_open p1 k (begun s) o1),
      refl,
      refl,
      record {
        alive =
            ap (λ (h : List Worker). get_elem? h (length p.heap))
              (h4 ∙ ap (λ (h : List Worker). h ++ (w ∷ [])) h3)
            ∙ get_elem?-append_left (p.heap ++ (v ∷ [])) (w ∷ []) (length p.heap)
                (get_elem?-append_end p.heap v);
        replaced = λ t e.
            ap (λ (x : Slot). x.worker) (some_eq (sym e ∙ o4.found))
            ∙ ap some (omega (arith, ap length h3, length-append p.heap (v ∷ [])));
      },
    )
