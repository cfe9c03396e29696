-- ===== src/Store/Resolution/Sorting.antt =====
-- The sort of the timeline, when later moments arrive.
use sarmady.Prelude.{ℕ, ◌<◌, ◌≡◌, refl, ap, ◌∙◌, List, [], ◌∷◌, ◌++◌, arith, All}
use sarmady.Store.Resolution.{Moment, insert_moment, sort_moments}

-- every moment is older than the sequence number
abbrev pub Before : ℕ → List (ℕ × Moment) → Type 0
Before n = All (λ (m : ℕ × Moment). m.0 < n)

insert_moment-snoc :
    (m x : ℕ × Moment) (l : List (ℕ × Moment))
    → m.0 < x.0
    → insert_moment m (l ++ x ∷ []) ≡ insert_moment m l ++ x ∷ []
unfolding insert_moment
insert_moment-snoc m x [] h = ground arith
insert_moment-snoc m x (n ∷ l) h = ground (arith, insert_moment-snoc m x l h)

insert_moment_last :
    (x : ℕ × Moment) (l : List (ℕ × Moment)) → Before x.0 l → insert_moment x l ≡ l ++ x ∷ []
unfolding insert_moment
insert_moment_last x [] h = refl
insert_moment_last x (n ∷ l) h = ground (arith, insert_moment_last x l h.1)

insert_moment-Before :
    (k : ℕ) (m : ℕ × Moment) (l : List (ℕ × Moment))
    → m.0 < k
    → Before k l
    → Before k (insert_moment m l)
unfolding insert_moment
insert_moment-Before k m [] h b = (h, tt)
insert_moment-Before k m (n ∷ l) h b = ground (arith, insert_moment-Before k m l h b.1)

sort_moments-Before : (k : ℕ) (l : List (ℕ × Moment)) → Before k l → Before k (sort_moments l)
unfolding sort_moments
sort_moments-Before k [] b = tt
sort_moments-Before k (m ∷ l) b =
    insert_moment-Before k m (sort_moments l) b.0 (sort_moments-Before k l b.1)

-- A moment later than all others goes last, wherever it stands before the sort.
pub sort_moments_latest :
    (x : ℕ × Moment) (a b : List (ℕ × Moment))
    → Before x.0 a
    → Before x.0 b
    → sort_moments (a ++ x ∷ b) ≡ sort_moments (a ++ b) ++ x ∷ []
unfolding sort_moments
sort_moments_latest x [] b ha hb =
    insert_moment_last x (sort_moments b) (sort_moments-Before x.0 b hb)
sort_moments_latest x (m ∷ a) b ha hb =
    ap (insert_moment m) (sort_moments_latest x a b ha.1 hb)
    ∙ insert_moment-snoc m x (sort_moments (a ++ b)) ha.0
