-- ===== src/Store/Event/Valid.antt =====
-- What a prepared event is known to satisfy.
use Prim.Native.String.{count}
use text.Mathlib.TextLemmas.{length-cons}
use design_document.Base.{
  ℕ, suc, ◌<◌, String, ◌≡◌, ◌≢◌, refl, sym, ap, ◌∙◌, true, arith, eq_iff, ok,
}
use design_document.Json.{obj, Dict, pop}
use design_document.Store.Event.{
  Platform, Validator, PreparedEvent, is_event_type, prepare_event, content_sha256, canonical_json,
  lower, positive_int, required_text,
}

pub count-lower : (s : String) → count (lower s) ≡ count s
unfolding lower
count-lower String.[] = refl
count-lower (String.◌∷◌ c s) =
    length-cons _ (lower s) ∙ ap suc (count-lower s) ∙ sym (length-cons c s)

positive_int-pos : (d : Dict) (n : ℕ) → positive_int d ≡ ok n → 0 < n
unfolding positive_int
positive_int-pos d n h = ground arith

required_text-ne : (d : Dict) (k s : String) → required_text d k ≡ ok s → s ≢ ""
unfolding required_text
required_text-ne d k s h = ground (arith, eq_iff s "")

pub record IsChecked (platform : Platform) (event : Dict) (p : PreparedEvent) : Type 0 where
  pub known_type : is_event_type p.event_type ≡ true
  pub sequence_positive : 0 < p.sequence
  pub digest_length : count p.sha256 ≡ 64
  pub digest : content_sha256 platform event ≡ ok p.sha256
  pub headers : canonical_json platform (obj (pop "payload" event)) ≡ ok p.headers

module _ (platform : Platform) (validator : Validator) where
  -- An event that passes validation has a known type, a positive sequence, a digest of 64
  -- characters that is the SHA-256 of its canonical content without `integrity`, and its headers
  -- column is the canonical text of all but the payload.
  pub prepare_event-IsChecked :
      (event : Dict) (p : PreparedEvent)
      → prepare_event platform validator (obj event) ≡ ok p
      → IsChecked platform event p
  unfolding prepare_event
  prepare_event-IsChecked event p h = record {
    known_type = ground arith;
    sequence_positive = ground arith;
    digest_length = grind (arith, count-lower);
    digest = grind (arith, eq_iff);
    headers = ground arith;
  }
