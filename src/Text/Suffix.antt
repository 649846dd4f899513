-- ===== src/Text/Suffix.antt =====
-- Laws of `ends_with`, and the text before an ending.
use aocr.Prelude.{
  ◌-◌, ◌≡◌, sym, ap, ◌∙◌, true, ◌++◌, Option, none, some, arith, if◌then◌else◌, length, take, drop,
  length-append, take-length-append, drop-length-append, take-append-drop, Bool-cases, inl, inr,
}
use aocr.Text.{Str, ends_with}
use aocr.Text.Laws.{str_eq_iff}

-- s without its ending, where it has it
unfoldable pub strip_end : Str → Str → Option Str
unfolding ends_with
strip_end ending s = if ends_with s ending then some (take (length s - length ending) s) else none

drop_front : (s m : Str) → drop (length (s ++ m) - length m) (s ++ m) ≡ m
drop_front s m =
    let e : length (s ++ m) - length m ≡ length s = omega (arith, length-append s m) in
    ap (λ k. drop k (s ++ m)) e ∙ drop-length-append s m

ends_with-append : (s m : Str) → ends_with (s ++ m) m ≡ true
unfolding ends_with
ends_with-append s m = ground (
  arith,
  length-append s m,
  (str_eq_iff (drop (length (s ++ m) - length m) (s ++ m)) m).1 (drop_front s m),
)

pub strip_end-append : (s m : Str) → strip_end m (s ++ m) ≡ some s
unfolding strip_end
strip_end-append s m =
    let e : length (s ++ m) - length m ≡ length s = omega (arith, length-append s m) in
    rw (ends_with-append s m)
      (ap (λ k. some (take k (s ++ m))) e ∙ ap (λ t. some t) (take-length-append s m))

ends_with-drop : (s m : Str) → ends_with s m ≡ true → drop (length s - length m) s ≡ m
unfolding ends_with
ends_with-drop s m h = (str_eq_iff (drop (length s - length m) s) m).0 (ground (arith, h))

pub strip_end_sound : (m s t : Str) → strip_end m s ≡ some t → s ≡ t ++ m
unfolding strip_end
strip_end_sound m s t h = elim (Bool-cases (ends_with s m)) [
  | inr e ↦ absurd (cc (e, h))
  | inl e ↦
      let same : take (length s - length m) s ≡ t = cc (e, h) in
      sym (take-append-drop (length s - length m) s)
      ∙ ap (λ u. u ++ drop (length s - length m) s) same
      ∙ ap (λ u. t ++ u) (ends_with-drop s m e)
]
