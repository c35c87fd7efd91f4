-- ===== src/Util/Examples.antt =====
-- `split` on concrete texts.
use p7_kode.Base.{◌≡◌, refl, [], ◌∷◌}
use p7_kode.Base.Text.{codes, find_char}
use p7_kode.Util.Split.{split, pieces, join, split-pieces, join-split}

split_runs : split (codes "a,bc,,") b',' ≡ codes "a" ∷ codes "bc" ∷ [] ∷ [] ∷ []
unfolding split find_char
split_runs = refl

split-pieces_example : split (codes "get_robot,1") b',' ≡ pieces b',' (codes "get_robot,1")
split-pieces_example = split-pieces (codes "get_robot,1") b','

join-split_example : join b',' (split (codes "a,,b") b',') ≡ codes "a,,b"
join-split_example = join-split (codes "a,,b") b','
