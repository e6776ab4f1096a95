-- ===== src/Classifier/Features/Digest.antt =====
-- The digest that is read in chunks is that of the whole file.
use lustro_node_agent.Base.{
  ℕ, zero, suc, ◌≤◌, ◌≡◌, refl, sym, ap, ◌∙◌, [], ◌∷◌, ◌++◌, length, length-drop, take, drop, arith,
}
use lustro_node_agent.Base.Text.{Bytes}
use lustro_node_agent.Classifier.Features.{Hashlib, chunk_bytes, digest_from, sha256}

-- `hashlib`: repeated calls of `update` are one call with all that they were given.
pub record HashLaws {H : Type 0} (L : Hashlib H) : Type 0 where
  pub update-append : (h : H) (a b : Bytes) → L.update (L.update h a) b ≡ L.update h (a ++ b)
  pub update-nil : (h : H) → L.update h [] ≡ h

take-drop : (n : ℕ) (b : Bytes) → take n b ++ drop n b ≡ b
take-drop zero b = refl
take-drop (suc n) [] = refl
take-drop (suc n) (x ∷ b) = ap (λ l. x ∷ l) (take-drop n b)

module _ {H : Type 0} (L : Hashlib H) (laws : HashLaws L) where
  round :
      (n : ℕ) (h : H) (rest : Bytes)
      → (digest_from L n (L.update h (take chunk_bytes rest)) (drop chunk_bytes rest)
          ≡ L.update (L.update h (take chunk_bytes rest)) (drop chunk_bytes rest))
      → digest_from L n (L.update h (take chunk_bytes rest)) (drop chunk_bytes rest)
        ≡ L.update h rest
  round n h rest later =
      later
      ∙ laws.update-append h (take chunk_bytes rest) (drop chunk_bytes rest)
      ∙ ap (L.update h) (take-drop chunk_bytes rest)

  digest_from-update :
      (n : ℕ) (h : H) (rest : Bytes) → length rest ≤ n → digest_from L n h rest ≡ L.update h rest
  unfolding digest_from
  digest_from-update zero h [] small = sym (laws.update-nil h)
  digest_from-update zero h (x ∷ rest) small = absurd (omega (arith, small))
  digest_from-update (suc n) h [] small = sym (laws.update-nil h)
  digest_from-update (suc n) h (x ∷ rest) small = round n h (x ∷ rest) (
      digest_from-update n _ (drop chunk_bytes (x ∷ rest))
        (omega (arith, small, length-drop chunk_bytes (x ∷ rest))))

  -- `_sha256`, which reads the file in chunks of a mebibyte, gives the digest of all its bytes at
  -- once, whatever the size of the file.
  pub sha256-whole : (raw : Bytes) → sha256 L raw ≡ L.hexdigest (L.update L.new raw)
  unfolding sha256
  sha256-whole raw = ap L.hexdigest (digest_from-update (length raw) L.new raw (omega arith))
