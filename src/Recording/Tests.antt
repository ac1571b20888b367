-- ===== src/Recording/Tests.antt =====
-- The theorem on segments at concrete calls.
use omnitrack_ai_platform.Prelude.{◌≤◌, ◌≡◌, refl, some, List, [], ◌∷◌, map, length}
use omnitrack_ai_platform.Recording.{init, start, completed, capacity}
use omnitrack_ai_platform.Recording.Segments.{Call, pushes, triggers, drains, run, one_segment}

abbrev calls : List Call
calls =
    pushes 30 1 ∷ pushes 30 2 ∷ triggers 30 9 6 4 ∷ pushes 30 3 ∷ drains ∷ triggers 30 12 7 4 ∷ []

-- The recording was completed by the first event, and goes on.
recorded : map (λ rec. rec.status) (run calls (start 5 init)).recordings ≡ completed ∷ []
unfolding run start init
recorded = refl

one_segment_example :
    let r = run calls (start 5 init) in
    (map (λ rec. rec.id) r.recordings ≡ 5 ∷ [])
    × (r.active_recording ≡ some 5)
    × (length r.frame_queue ≤ capacity)
one_segment_example = one_segment 5 calls
