-- ===== src/BufferPool/Evictable.antt =====
-- A frame with a pin is not one that the evictor gives up.
use cpplite.Common.{
  ℕ, suc, ◌+◌, ◌^◌, ◌<◌, ◌≡◌, ◌≢◌, refl, sym, ap, subst, ◌∙◌, arith, Bool, true, false, Option,
  none, some, ◌==◌, if◌then◌else◌, inl, inr, Bool-cases,
}
use cpplite.Common.Outcome.{done}
use cpplite.Evictor.{LrukNode, LrukEvictor, node_or_new, evict, record_access, set_evictable}
use cpplite.Evictor.Access.{touched, record_access-IsValid}
use cpplite.Evictor.Invariant.{IsValid, set_evictable-IsValid}
use cpplite.Evictor.Policy.{evict-Chooses}
use cpplite.FileCache.{find}
use cpplite.Vfs.{VirtualFs}
use cpplite.BufferPool.{
  PageKey, FrameHeader, readers, incr_pins, decr_pins, lock_read, unlock_read, BufferPoolManager,
  set_frame, unlock_pool,
}
use cpplite.BufferPool.Guard.{reading, PageGuard, make_guard, drop, unlatch_frame}
use cpplite.BufferPool.Pool.{frame_of, get_page, read_page}

abbrev pub IsHeld : Option LrukNode → Type 0
IsHeld none = Unit {0}
IsHeld (some n) = n.is_evictable ≡ false

-- The evictor after a page is asked for and its guard is made.
abbrev pub held_by : LrukEvictor → ℕ → LrukEvictor
held_by e id = record_access (set_evictable (record_access e id) id false) id

held_by-IsHeld :
    (e : LrukEvictor) (id : ℕ)
    → IsValid e
    → IsValid (held_by e id)
      × ((g : ℕ) → IsHeld (e.node_store g) → IsHeld ((held_by e id).node_store g))
      × IsHeld ((held_by e id).node_store id)
held_by-IsHeld e id v =
    let (v1, a1) = record_access-IsValid e id v in
    let e1 = record_access e id in
    let (v2, a2) = set_evictable-IsValid e1 id v1 false in
    let e2 = set_evictable e1 id false in
    let (v3, a3) = record_access-IsValid e2 id v2 in
    let at_id : e1.node_store id
        ≡ some (touched e.k e.current_timestamp (node_or_new (e.node_store id))) =
      ground (arith, a1 id) in
    let at_id2 : e2.node_store id
        ≡ some (record (touched e.k e.current_timestamp (node_or_new (e.node_store id))) {
          is_evictable = false;
        }) =
      ground (arith, a2 id, at_id) in
    let mine : IsHeld ((held_by e id).node_store id) = ground (arith, a3 id, at_id2) in
    (
      v3,
      λ g h. elim (Bool-cases (id == g)) [
        | inl i ↦
            let q : id ≡ g = ground (arith, i) in
            subst (λ k. IsHeld ((held_by e id).node_store k)) q mine
        | inr i ↦
            let same : (held_by e id).node_store g ≡ e.node_store g =
              ground (arith, i, a1 g, a2 g, a3 g) in
            subst IsHeld (sym same) h
      ],
      mine,
    )

-- What holds between two calls: the evictor agrees with itself, and it may not give up a frame that
-- has a pin.
pub record PinsHeld {v : VirtualFs} (p : BufferPoolManager v) : Type 0 where
  pub valid : IsValid p.evictor
  pub held : (g : ℕ) → 0 < (p.frames g).pins → IsHeld (p.evictor.node_store g)

module _ {v : VirtualFs} where
  -- `evict` gives up no frame that has a pin.
  pub evict-PinsHeld :
      (p : BufferPoolManager v) (victim : ℕ) (evictor : LrukEvictor)
      → PinsHeld p
      → evict p.evictor ≡ (some victim, evictor)
      → ((p.frames victim).pins ≡ 0) × PinsHeld (record p { evictor = evictor })
  evict-PinsHeld p victim evictor safe taken = elim (evict-Chooses p.evictor safe.valid) [
    | inl (none_left, nothing) ↦ absurd (ground (arith, taken, nothing))
    | inr (other, after, run, evicts) ↦
        let same_victim : other ≡ victim = ground (arith, taken, run) in
        let same_evictor : after ≡ evictor = ground (arith, taken, run) in
        let stored : p.evictor.node_store victim ≡ some evicts.node =
          ap p.evictor.node_store (sym same_victim) ∙ evicts.stored in
        (
          elim (Bool-cases ((p.frames victim).pins == 0)) [
            | inl zero_pins ↦ ground (arith, zero_pins)
            | inr some_pins ↦ absurd (
                ground
                  (arith, safe.held victim (ground (arith, some_pins)), stored, evicts.evictable))
          ],
          subst (λ (e : LrukEvictor). PinsHeld (record p { evictor = e })) same_evictor
              (record {
                valid = evicts.valid;
                held = λ g pinned. ground (arith, evicts.forgotten g, safe.held g pinned);
              }),
        )
  ]

  -- The pins of one frame change, and the evictor holds it.
  held_frame :
      (p : BufferPoolManager v) (id : ℕ) (frame : FrameHeader)
      → PinsHeld p
      → PinsHeld (record (set_frame id frame p) { evictor = held_by p.evictor id })
  held_frame p id frame safe =
      let (valid, others, mine) = held_by-IsHeld p.evictor id safe.valid in
      record {
        valid = valid;
        held = λ g pinned. elim (Bool-cases (g == id)) [
          | inl i ↦
              let q : id ≡ g = ground (arith, i) in
              subst (λ k. IsHeld ((held_by p.evictor id).node_store k)) q mine
          | inr i ↦ others g (safe.held g (ground (arith, pinned, i)))
        ];
      }

  -- `drop` makes a frame evictable only when its last pin goes.
  drop-PinsHeld :
      (p : BufferPoolManager v) (guard : PageGuard)
      → PinsHeld p
      → guard.kind ≡ reading
      → guard.is_valid ≡ true
      → p.bpm_latch ≡ false
      → 0 < (p.frames guard.frame).pins
      → (p.frames guard.frame).pins < 2 ^ 64
      → (guard' : PageGuard) × (p' : BufferPoolManager v) × (drop guard p ≡ done guard' p')
        × PinsHeld p'
  unfolding drop decr_pins unlock_read
  drop-PinsHeld p guard safe reads valid free pinned below =
      let id = guard.frame in
      let frame = decr_pins (p.frames id) in
      let last = (p.frames id).pins == 1 in
      let e = if last then set_evictable p.evictor id true else p.evictor in
      let marks = set_evictable-IsValid p.evictor id safe.valid true in
      let p1 = record (set_frame id frame (record p { bpm_latch = true })) { evictor = e } in
      (
        record guard { is_valid = false },
        unlatch_frame reading id (unlock_pool p1),
        ground (arith, reads, valid, free),
        record {
          valid = elim (Bool-cases last) [
            | inl i ↦
                subst IsValid
                  (sym
                    (ap (λ (b : Bool). if b then set_evictable p.evictor id true else p.evictor) i))
                  marks.0
            | inr i ↦
                subst IsValid
                  (sym
                    (ap (λ (b : Bool). if b then set_evictable p.evictor id true else p.evictor) i))
                  safe.valid
          ];
          held = λ g some_pins. elim (Bool-cases (g == id)) [
            | inl i ↦ elim (Bool-cases last) [
              | inl l ↦ absurd (ground (arith, i, l, some_pins))
              | inr l ↦
                  let q : id ≡ g = ground (arith, i) in
                  let same : e ≡ p.evictor = ground (arith, l) in
                  subst (λ (x : LrukEvictor). IsHeld (x.node_store g)) (sym same)
                    (subst (λ k. IsHeld (p.evictor.node_store k)) q (safe.held id pinned))
            ]
            | inr i ↦
                let same : e.node_store g ≡ p.evictor.node_store g = elim (Bool-cases last) [
                  | inl l ↦ ground (arith, i, l, marks.1 g)
                  | inr l ↦ ground (arith, l)
                ] in
                subst IsHeld (sym same) (safe.held g (ground (arith, some_pins, i)))
          ];
        },
      )

  -- A guard of a read, from `read_page` to `drop`.
  abbrev pub Guards : PageKey → ℕ → BufferPoolManager v → Type 0
  Guards pgkey id p =
      (guard : PageGuard) × (p' : BufferPoolManager v) × (read_page pgkey p ≡ done guard p')
      × PinsHeld p'
      × ((victim : ℕ) (evictor : LrukEvictor)
          → evict p'.evictor ≡ (some victim, evictor)
          → victim ≢ id)
      × ((guard' : PageGuard) × (p'' : BufferPoolManager v) × (drop guard p' ≡ done guard' p'')
          × PinsHeld p'')

  -- If the evictor of a pool is valid and holds every frame that has a pin, then `read_page` of a page
  -- that is in a frame with no writer, and fewer pins than 64 bits count, keeps that so, and so does
  -- the `drop` of its guard; between the two the evictor gives up any frame but that of the guard.
  pub read_page-Guards :
      (p : BufferPoolManager v) (pgkey : PageKey) (id n : ℕ)
      → PinsHeld p
      → p.bpm_latch ≡ false
      → find pgkey p.frame_table ≡ some id
      → id < p.num_frames
      → (p.frames id).rwlatch ≡ readers n
      → (p.frames id).pins + 1 < 2 ^ 64
      → Guards pgkey id p
  unfolding read_page get_page frame_of make_guard lock_read incr_pins
  read_page-Guards p pgkey id n safe free there inside latch below =
      let pinned = incr_pins (p.frames id) in
      let frame = record pinned { rwlatch = readers (suc n) } in
      let p1 : BufferPoolManager v = record p {
        bpm_latch = true;
        evictor = set_evictable (record_access p.evictor id) id false;
      } in
      let p2 = record (set_frame id pinned p1) { evictor = record_access p1.evictor id } in
      let p' = unlock_pool (set_frame id frame p2) in
      let guard : PageGuard = record {
        kind = reading;
        pgkey = pgkey;
        frame = id;
        is_valid = true;
      } in
      let held = held_frame p id frame safe in
      let safe' : PinsHeld p' = record {
        valid = held.valid;
        held = λ g pins. held.held g (ground (arith, pins));
      } in
      let some_pin : 0 < (p'.frames id).pins = ground (arith, below) in
      let (guard', p'', dropped, safe'') =
        drop-PinsHeld p' guard safe' refl refl refl some_pin (ground (arith, below)) in
      (
        guard,
        p',
        ground (arith, free, there, inside, latch),
        safe',
        λ victim evictor taken same.
            let gone = (evict-PinsHeld p' victim evictor safe' taken).0 in
            absurd (ground (arith, gone, same, some_pin)),
        (guard', p'', dropped, safe''),
      )
