-- ===== src/Log/Loggers/Dict.antt =====
-- The dictionaries with texts as keys: std::map, and the files of the file system.
use eva.Base.{
  ◌≡◌, refl, List, [], ◌∷◌, some, if◌then◌else◌, Bytes, same_text, same_text_self, same_text→eq,
  arith,
}
use eva.Log.Loggers.{find_text, put_text}

pub find_text-put_text {ℓ} :
    {V : Type ℓ} (k j : Bytes) (v : V) (m : List (Bytes × V))
    → find_text j (put_text k v m) ≡ (if same_text j k then some v else find_text j m)
unfolding find_text put_text
find_text-put_text k j v [] = refl
find_text-put_text k j v ((i, u) ∷ m) = ground (
  arith,
  find_text-put_text k j v m,
  same_text→eq k i,
  same_text→eq j k,
  same_text→eq j i,
  same_text_self i,
  same_text_self k,
)
