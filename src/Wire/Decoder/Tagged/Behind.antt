-- ===== src/Wire/Decoder/Tagged/Behind.antt =====
-- Where getTaggedFieldArray runs the decoder of a tag.
use coev.Base.{ℕ, suc, ◌^◌, ◌<◌, ◌≡◌, refl, sym, ap, ◌∙◌, arith}
use coev.Base.{List, [], ◌∷◌, ◌++◌, length, length-append, append_assoc, ◌==◌, true}
use coev.Base.Int.{pos, int_of_size}
use coev.Wire.Outcome.{
  Outcome, fault, stuck, fail, tagged_fields_in_non_flexible_context, ok, err, and_then, pure,
  ◌>>=◌, ◌>>◌,
}
use coev.Wire.Format.{uvarint}
use coev.Wire.Decoder.{Decoder, Get, advance, push_flexible}
use coev.Wire.Decoder.View.{Sees, Reads, Reads-bind, Reads-pure, Sees-advance, advance-advance}
use coev.Wire.Decoder.Varint.{get_uvariant}
use coev.Wire.Decoder.Varint.Values.{Reads-get_uvariant}
use coev.Wire.Decoder.Strings.{get_raw_bytes}
use coev.Wire.Decoder.Strings.ReadBack.{by_version_flexible, Reads-get_raw_bytes}
use coev.Wire.Decoder.Tagged.{skip_tag, find_decoder, run_decoder, leave, decode_tags, Decoders}
use coev.Wire.Decoder.Tagged.{get_tagged_field_array}

-- A tag on the wire.
abbrev pub tag_bytes : ℕ → List ℕ → List ℕ
tag_bytes id held = uvarint id ++ (uvarint (length held) ++ (held ++ []))

Reads-skip_tag :
    (version id : ℕ) (held : List ℕ)
    → id < 2 ^ 63
    → length held < 2 ^ 31
    → Reads version skip_tag (tag_bytes id held) id
unfolding skip_tag
Reads-skip_tag version id held hi hd =
    Reads-bind version get_uvariant (λ i. get_uvariant >>= λ n. behind i n) (uvarint id)
      (uvarint (length held) ++ (held ++ [])) id id (Reads-get_uvariant version id hi)
      (Reads-bind version get_uvariant (behind id) (uvarint (length held)) (held ++ [])
        (length held) id (Reads-get_uvariant version (length held) (omega arith)) whole)
  where
    behind : ℕ → ℕ → Get ℕ
    behind i n = get_raw_bytes (int_of_size n) >>= λ bytes. pure i

    whole : Reads version (behind id (length held)) (held ++ []) id
    whole =
        let size : int_of_size (length held) ≡ pos (length held) = ground arith in
        rw size (
          Reads-bind version (get_raw_bytes (pos (length held))) (λ bytes. pure id) held [] held id
            (Reads-get_raw_bytes version held) (Reads-pure version id))

-- In a flexible version, in a buffer of fewer than 2 ^ 31 bytes, the decoder of the only tag of an array runs on the bytes behind the tag's
-- own, one scope further in, whatever the tag holds.
pub tag_decoder_runs_behind :
    (w id : ℕ) (held : List ℕ) (field : Get (Unit {0})) (others : Decoders) (d : Decoder)
    (rest : List ℕ)
    → d.flexible ≡ suc w
    → id < 2 ^ 63
    → length held < 2 ^ 31
    → Sees d ((uvarint 1 ++ tag_bytes id held) ++ rest)
    → get_tagged_field_array ((id, field) ∷ others) d
      ≡ leave (field (push_flexible (advance (length (uvarint 1 ++ tag_bytes id held)) d)))
unfolding get_tagged_field_array decode_tags find_decoder run_decoder
tag_decoder_runs_behind w id held field others d rest f hi hd v =
    by_version_flexible (fail tagged_fields_in_non_flexible_context)
      (get_uvariant >>= decode_tags decoders) d w f
    ∙ ap (λ r. and_then r (decode_tags decoders))
        (Reads-get_uvariant (suc w) 1 (omega arith) d (tag_bytes id held ++ rest) f there)
    ∙ ap (λ r. and_then r found)
        (Reads-skip_tag (suc w) id held hi hd (advance (length (uvarint 1)) d) rest f
          (Sees-advance d (uvarint 1) (tag_bytes id held ++ rest) there))
    ∙ at_end
  where
    decoders : Decoders
    decoders = (id, field) ∷ others

    found : ℕ → Get (Unit {0})
    found i = run_decoder (find_decoder i decoders) >> pure tt

    there : Sees d (uvarint 1 ++ (tag_bytes id held ++ rest))
    there = rw (← append_assoc (uvarint 1) (tag_bytes id held) rest) v

    same : (id == id) ≡ true
    same = ground arith

    closing : (r : Outcome Decoder (Unit {0})) → and_then r (λ _. pure tt) ≡ r
    closing (ok a d') = refl
    closing (err c d') = refl
    closing fault = refl
    closing stuck = refl

    at_end :
        found id (advance (length (tag_bytes id held)) (advance (length (uvarint 1)) d))
        ≡ leave (field (push_flexible (advance (length (uvarint 1 ++ tag_bytes id held)) d)))
    at_end =
        rw same (
          closing (
            leave (
              field (
                push_flexible
                  (advance (length (tag_bytes id held)) (advance (length (uvarint 1)) d))))))
        ∙ ap (λ d'. leave (field (push_flexible d')))
            (advance-advance (length (uvarint 1)) (length (tag_bytes id held)) d
              ∙ ap (λ n. advance n d) (sym (length-append (uvarint 1) (tag_bytes id held))))
