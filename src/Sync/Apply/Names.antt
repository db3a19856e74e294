-- ===== src/Sync/Apply/Names.antt =====
-- The names that the synchronization of src/fs/sync-fsync.h gives to targets.
use fcom.Prelude.{
  ℕ, ◌≡◌, refl, sym, ◌∙◌, ap, Bool, true, false, ◌||◌, Option, some, [], ◌∷◌, ◌++◌, append_assoc,
  length, drop,
}
use fcom.Prelude.Memory.{Bytes}
use fcom.Sync.{Files, File}
use fcom.Sync.Apply.{
  Settings, World, Places, strip_slash, out_name, full_name, moved_name, sync_copy,
}
use fcom.Sync.Apply.Wish.{below, IsBelow, IsNamed, verified_copy}

drop-append : (x y : Bytes) → drop (length x) (x ++ y) ≡ y
drop-append [] y = refl
drop-append (b ∷ x) y = drop-append x y

pub or_false : (b : Bool) → (b || false) ≡ b
or_false true = refl
or_false false = refl

pub or_true : (b : Bool) → (b || true) ≡ true
or_true true = refl
or_true false = refl

module _ (files : Files) (p : Places files) (a : Settings) (w : World) where
  full_name-path :
      (f : File files) (b : ℕ) (q : Bytes)
      → p.path f ≡ b ∷ q
      → full_name files p (some f) ≡ below (b ∷ q) (p.name f)
  full_name-path f b q e =
      ap (λ (x : Bytes). elim x [ [] ↦ p.name f | c ∷ s ↦ (c ∷ s) ++ (b'/' ∷ p.name f) ]) e

  pub full_name-IsNamed :
      (f : File files) (name : Bytes) → IsNamed files p a f name → full_name files p (some f) ≡ name
  full_name-IsNamed f name k =
      full_name-path f k.first k.others k.path
      ∙ ap (λ x. below x (p.name f)) (sym k.path)
      ∙ sym k.full

  full_name-IsBelow :
      (f : File files) (rel : Bytes)
      → IsBelow files p a f rel
      → full_name files p (some f) ≡ below p.left_root rel
  full_name-IsBelow f rel k =
      full_name-path f k.first (k.others ++ k.sub) (k.path ∙ ap (λ x. x ++ k.sub) k.root)
      ∙ append_assoc (k.first ∷ k.others) k.sub (b'/' ∷ p.name f)
      ∙ ap (λ x. (k.first ∷ k.others) ++ x) k.name
      ∙ ap (λ x. below x rel) (sym k.root)

  out_name-below : (left right rel : Bytes) → out_name (below left rel) left right ≡ below right rel
  unfolding out_name
  out_name-below left right rel =
      ap (λ x. right ++ (b'/' ∷ strip_slash x)) (drop-append left (b'/' ∷ rel))

  pub moved_name-IsBelow :
      (f : File files) (rel : Bytes)
      → IsBelow files p a f rel
      → moved_name files p f ≡ below p.right_root rel
  moved_name-IsBelow f rel k =
      ap (λ x. p.right_root ++ (drop (length p.left_root) x ++ (b'/' ∷ p.name f))) k.path
      ∙ ap (λ x. p.right_root ++ (x ++ (b'/' ∷ p.name f))) (drop-append p.left_root k.sub)
      ∙ ap (λ x. p.right_root ++ x) k.name

  -- The copy of a file of the left tree.
  pub copy_request :
      (f : File files) (l : Option (File files)) (rel : Bytes) (o b : Bool)
      → l ≡ some f
      → IsBelow files p a f rel
      → (a.overwrite || o) ≡ b
      → sync_copy files p a w
          (full_name files p l)
          (out_name (full_name files p l) p.left_root p.right_root)
          o
        ≡ verified_copy a w (below p.left_root rel) (below p.right_root rel) b
  copy_request f l rel o b e k q =
      ap
        (λ x.
          sync_copy files p a w (full_name files p x)
            (out_name (full_name files p x) p.left_root p.right_root) o)
        e
      ∙ ap (λ x. sync_copy files p a w x (out_name x p.left_root p.right_root) o)
          (full_name-IsBelow f rel k)
      ∙ ap (λ x. sync_copy files p a w (below p.left_root rel) x o)
          (out_name-below p.left_root p.right_root rel)
      ∙ ap (λ x. verified_copy a w (below p.left_root rel) (below p.right_root rel) x) q
