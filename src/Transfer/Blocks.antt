-- ===== src/Transfer/Blocks.antt =====
-- The blocks of a file, as both sides of src/proto/dfile_conn.c cut it.
use Prim.Native.Nat.{min}
use hwphonelink.Transfer.State.{TransFile}
use hwphonelink.Transfer.Common.{update_file, find_file}
use hwphonelink.Prelude.{
  length-drop, ap, sym, length-take, ◌∷◌, ◌-◌, ◌+◌, ◌∙◌, arith, ◌*◌, ◌≡◌, drop, ◌++◌, length, take,
  List, ℕ, [], some, refl, suc, zero,
}

take_nil {ℓ} : {A : Type ℓ} (n : ℕ) (xs : List A) → xs ≡ [] → take n xs ≡ []
take_nil zero xs e = refl
take_nil (suc n) xs e = rw e refl

take_split {ℓ} :
    {A : Type ℓ} (a b c : ℕ) (xs : List A) → c ≡ a + b → take a xs ++ take b (drop a xs) ≡ take c xs
take_split zero b c xs e = ap (λ n. take n xs) (omega arith)
take_split (suc a) b c [] e = take_nil b [] refl ∙ sym (take_nil c [] refl)
take_split (suc a) b zero (x ∷ xs) e = absurd (omega arith)
take_split (suc a) b (suc c) (x ∷ xs) e = ap (λ zs. x ∷ zs) (take_split a b c xs (omega arith))

take-min {ℓ} : {A : Type ℓ} (b m : ℕ) (xs : List A) → m ≡ min (length xs) b → take m xs ≡ take b xs
take-min b m [] e = take_nil m [] refl ∙ sym (take_nil b [] refl)
take-min zero zero (x ∷ xs) e = refl
take-min zero (suc m) (x ∷ xs) e = absurd (omega arith)
take-min (suc b) zero (x ∷ xs) e = absurd (omega arith)
take-min (suc b) (suc m) (x ∷ xs) e = ap (λ zs. x ∷ zs) (take-min b m xs (omega arith))

-- Block `seq` of a file of that content.
abbrev pub block_of : ℕ → List ℕ → ℕ → List ℕ
block_of block_size content seq = take block_size (drop (seq * block_size) content)

pub length-block_of :
    (b : ℕ) (content : List ℕ) (seq : ℕ)
    → length (block_of b content seq) ≡ min (length content - seq * b) b
length-block_of b content seq =
    omega (arith, length-take b (drop (seq * b) content), length-drop (seq * b) content)

-- The part that the sender asks for is the block.
pub block_of_asked :
    (b : ℕ) (content : List ℕ) (seq : ℕ)
    → take (min (length content - seq * b) b) (drop (seq * b) content) ≡ block_of b content seq
block_of_asked b content seq =
    take-min b _ (drop (seq * b) content) (omega (arith, length-drop (seq * b) content))

-- Block after block, the blocks make up the file.
pub take-block_of :
    (b : ℕ) (content : List ℕ) (seq : ℕ)
    → take (seq * b) content ++ block_of b content seq ≡ take (suc seq * b) content
take-block_of b content seq = take_split (seq * b) b (suc seq * b) content (ground arith)

pub find_file-file_id :
    (id : ℕ) (fs : List TransFile) (f : TransFile) → find_file id fs ≡ some f → f.file_id ≡ id
unfolding find_file
find_file-file_id id [] f e = ground (arith, e)
find_file-file_id id (x ∷ fs) f e = ground (arith, find_file-file_id id fs f)

pub find_file-update_file :
    (id : ℕ) (fs : List TransFile) (f g : TransFile)
    → find_file id fs ≡ some f
    → g.file_id ≡ id
    → find_file id (update_file g fs) ≡ some g
unfolding find_file update_file
find_file-update_file id [] f g e h = ground (arith, e)
find_file-update_file id (x ∷ fs) f g e h = ground (arith, find_file-update_file id fs f g)
