-- ===== src/FeatureSession/Channel/Files.antt =====
-- A directory of named files after one of them is saved or removed.
use design_document.Base.{
  String, ◌≡◌, refl, none, some, List, [], ◌∷◌, ◌==◌, eq_iff, eq_refl, arith, if◌then◌else◌,
}
use design_document.FeatureSession.Channel.{file, save, unlink}

module _ {A : Type 0} where
  pub file-save :
      (m n : String) (a : A) (files : List (String × A))
      → file n (save m a files) ≡ (if m == n then some a else file n files)
  unfolding file save
  file-save m n a [] = refl
  file-save m n a ((k, b) ∷ files) =
      ground (arith, eq_iff k m, eq_iff k n, eq_iff m n, file-save m n a files)

  pub file-unlink :
      (m n : String) (files : List (String × A))
      → file n (unlink m files) ≡ (if m == n then none else file n files)
  unfolding file unlink
  file-unlink m n [] = ground arith
  file-unlink m n ((k, b) ∷ files) =
      ground (arith, eq_iff k m, eq_iff k n, eq_iff m n, file-unlink m n files)

  pub file-save_self :
      (n : String) (a : A) (files : List (String × A)) → file n (save n a files) ≡ some a
  file-save_self n a files = ground (arith, file-save n n a files, eq_refl n)

  pub file-unlink_self : (n : String) (files : List (String × A)) → file n (unlink n files) ≡ none
  file-unlink_self n files = ground (arith, file-unlink n n files, eq_refl n)
