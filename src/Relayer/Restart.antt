-- ===== src/Relayer/Restart.antt =====
-- The key that is kept between two starts of the process.
use libp2p_submission_sequen.Prelude.{◌≡◌, ◌≢◌, ◌∙◌, refl, ap, Bytes, [], ◌∷◌, none, some, ok}
use libp2p_submission_sequen.Relayer.{
  Platform, identity, private_key_to_string, generate_and_save_key, choose_key, decoded_key,
  unmarshalled,
}

module _ {PrivKey : Type 0} (platform : Platform PrivKey) where
  -- The round trips of the libraries: base64, whose text of some bytes is not empty, and the keys.
  pub record IsLawful : Type 0 where
    pub decode-encode : (b : Bytes) → platform.decode (platform.encode b) ≡ ok b
    pub encode_nonempty : (b : Bytes) → b ≢ [] → platform.encode b ≢ []
    pub unmarshal-marshal :
        (k : PrivKey)
        → (platform.marshal k).1 ≡ none
        → (platform.unmarshal (platform.marshal k).0 ≡ ok k) × ((platform.marshal k).0 ≢ [])

  choose_text :
      (text : Bytes)
      → text ≢ []
      → choose_key platform text ≡ decoded_key platform (platform.decode text)
  unfolding choose_key
  choose_text [] h = absurd (h refl)
  choose_text (c ∷ text) h = refl

  restored :
      (k : PrivKey)
      → IsLawful
      → (platform.marshal k).1 ≡ none
      → choose_key platform (private_key_to_string platform k) ≡ identity (some k) []
  unfolding private_key_to_string
  restored k law marshalled =
      let (back, nonempty) = law.unmarshal-marshal k marshalled in
      choose_text _ (law.encode_nonempty _ nonempty)
      ∙ ap (decoded_key platform) (law.decode-encode _)
      ∙ ap (unmarshalled platform) back

  first_start :
      (k : PrivKey)
      → platform.generate ≡ ok k
      → platform.write_file (private_key_to_string platform k) ≡ none
      → choose_key platform [] ≡ identity (some k) (private_key_to_string platform k ∷ [])
  unfolding choose_key generate_and_save_key private_key_to_string
  first_start k generated written = rw (generated, written) refl

  -- If the libraries round-trip, and a key is generated, marshalled and written without errors,
  -- then a start without a private key has that key as its identity and writes one text, and a
  -- start with that text as the private key has the same identity and writes nothing.
  pub choose_key_restored :
      (k : PrivKey)
      → IsLawful
      → platform.generate ≡ ok k
      → (platform.marshal k).1 ≡ none
      → platform.write_file (private_key_to_string platform k) ≡ none
      → (text : Bytes) × (choose_key platform [] ≡ identity (some k) (text ∷ []))
        × (choose_key platform text ≡ identity (some k) [])
  choose_key_restored k law generated marshalled written =
      (private_key_to_string platform k, first_start k generated written, restored k law marshalled)
