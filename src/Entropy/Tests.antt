-- ===== src/Entropy/Tests.antt =====
-- The histogram of some data.
use backupos.Base.{◌≡◌, refl, [], ◌∷◌, nat_eq}
use backupos.Base.Dict.{insert, lookup}
use backupos.Entropy.{counter, counter_loop}

two_bytes : counter (97 ∷ 98 ∷ 98 ∷ 97 ∷ []) ≡ (97, 2) ∷ (98, 2) ∷ []
unfolding counter counter_loop insert lookup
two_bytes = refl
