-- ===== src/Evictor/Examples.antt =====
-- An evictor of `k` 2 with two frames, of which frame 3 has been used twice.
use cpplite.Common.{◌≡◌, refl, arith, true, some}
use cpplite.Evictor.{LrukEvictor, init, record_access, set_evictable, evict}
use cpplite.Evictor.Set.{set_insert, set_erase}
use cpplite.Evictor.Invariant.{IsValid, init-IsValid, set_evictable-IsValid}
use cpplite.Evictor.Access.{record_access-IsValid}
use cpplite.Evictor.Policy.{Chooses, evict-Chooses}

abbrev once : LrukEvictor
once = set_evictable (record_access (init 2) 3) 3 true

abbrev twice : LrukEvictor
twice = set_evictable (record_access (record_access once 3) 4) 4 true

once-IsValid : IsValid once
once-IsValid =
    (set_evictable-IsValid (record_access (init 2) 3) 3
      (record_access-IsValid (init 2) 3 (init-IsValid 2 (omega arith))).0 true).0

twice-IsValid : IsValid twice
twice-IsValid =
    (set_evictable-IsValid (record_access (record_access once 3) 4) 4
      (record_access-IsValid (record_access once 3) 4
        (record_access-IsValid once 3 once-IsValid).0).0
      true).0

evict-Chooses_example : Chooses twice
evict-Chooses_example = evict-Chooses twice twice-IsValid

-- Frame 4, used once, goes before frame 3, used twice and before it.
evict-twice : (evict twice).0 ≡ some 4
unfolding init record_access set_evictable evict set_insert set_erase
evict-twice = refl
