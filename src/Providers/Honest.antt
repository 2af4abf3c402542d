-- ===== src/Providers/Honest.antt =====
-- StreamWithTools, as a provider promises it: what the callback is told, against what is returned.
use mathlib.Core.List.{append-nil, append_assoc}
use docsclaw.Base.{Str, List, [], ◌∷◌, ◌++◌, map, concat, ◌≡◌, refl, sym, ap, ◌∙◌, Result, ok, err}
use docsclaw.Llm.{Response, StreamEvent, text_delta, stream_done, stream_error}

-- What the callback is told of a result. A response comes with its content in pieces, then the end; an
-- error with pieces only, or with the error behind them, and never with the end.
pub data IsHonest : List StreamEvent → Result Str Response → Type 0 where
  whole :
      {resp : Response} {events : List StreamEvent} (texts : List Str)
      → events ≡ map text_delta texts ++ stream_done ∷ []
      → concat texts ≡ resp.content
      → IsHonest events (ok resp)
  broken :
      {e : Str} {events : List StreamEvent} (shown : Str) (texts : List Str)
      → events ≡ map text_delta texts ++ stream_error shown ∷ []
      → IsHonest events (err e)
  silent :
      {e : Str} {events : List StreamEvent} (texts : List Str)
      → events ≡ map text_delta texts
      → IsHonest events (err e)

abbrev pub IsHonestPair : List StreamEvent × Result Str Response → Type 0
IsHonestPair (events, result) = IsHonest events result

-- The events so far are texts, and `text` is what they carry.
pub data IsToldText (events : List StreamEvent) (text : Str) : Type 0 where
  told_text :
      (texts : List Str)
      → events ≡ map text_delta texts
      → concat texts ≡ text
      → IsToldText events text

map_snoc :
    (texts : List Str) (t : Str)
    → map text_delta texts ++ text_delta t ∷ [] ≡ map text_delta (texts ++ t ∷ [])
map_snoc [] t = refl
map_snoc (s ∷ texts) t = ap (λ l. text_delta s ∷ l) (map_snoc texts t)

concat_snoc : (texts : List Str) (t : Str) → concat (texts ++ t ∷ []) ≡ concat texts ++ t
concat_snoc [] t = append-nil t
concat_snoc (s ∷ texts) t =
    ap (λ l. s ++ l) (concat_snoc texts t) ∙ sym (append_assoc s (concat texts) t)

pub told_start : IsToldText [] []
told_start = told_text [] refl refl

pub told_more :
    {events : List StreamEvent} {text : Str}
    → IsToldText events text
    → (t : Str) → IsToldText (events ++ text_delta t ∷ []) (text ++ t)
told_more (told_text texts e f) t =
    told_text (texts ++ t ∷ []) (ap (λ l. l ++ text_delta t ∷ []) e ∙ map_snoc texts t)
      (concat_snoc texts t ∙ ap (λ l. l ++ t) f)

pub told_same :
    {events events' : List StreamEvent} {text text' : Str}
    → IsToldText events text
    → events' ≡ events
    → text' ≡ text
    → IsToldText events' text'
told_same told e f = rw (e, f) told

pub told_done :
    {events : List StreamEvent} {text : Str} (resp : Response)
    → IsToldText events text
    → text ≡ resp.content
    → IsHonest (events ++ stream_done ∷ []) (ok resp)
told_done resp (told_text texts e f) g =
    whole {resp = resp} texts (ap (λ l. l ++ stream_done ∷ []) e) (f ∙ g)

pub told_error :
    {events : List StreamEvent} {text : Str} (shown e : Str)
    → IsToldText events text
    → IsHonest (events ++ stream_error shown ∷ []) (err e)
told_error shown e (told_text texts f g) =
    broken shown texts (ap (λ l. l ++ stream_error shown ∷ []) f)

pub told_silent :
    {events : List StreamEvent} {text : Str} {e : Str}
    → IsToldText events text
    → IsHonest events (err e)
told_silent (told_text texts f g) = silent texts f
