-- ===== src/Examples/Like.antt =====
-- A concrete LIKE, with the laws that the deletion of a tree relies on.
use lan_bridge.Base.{
  String, Bool, true, false, ◌&&◌, ◌||◌, ◌≡◌, refl, arith, eqb, if◌then◌else◌, string_eq,
}
use lan_bridge.Base.Text.{is_empty}
use Prim.Native.Char.{code}
use lan_bridge.Repository.Patterns.{IsLike}

-- LIKE for the patterns whose only wildcard is a `%` at the end; `literal` is set after the escape
-- character.
unfoldable pub like_from : Bool → String → String → Bool
like_from literal own String.[] = is_empty own
like_from true String.[] (String.◌∷◌ c p) = false
like_from true (String.◌∷◌ o own) (String.◌∷◌ c p) = eqb (code o) (code c) && like_from false own p
like_from false String.[] (String.◌∷◌ c p) = eqb (code c) b'%'
like_from false (String.◌∷◌ o own) (String.◌∷◌ c p) =
    eqb (code c) b'%'
    || (if eqb (code c) b'\\'
        then like_from true (String.◌∷◌ o own) p
        else eqb (code o) (code c) && like_from false own p)

like_any : (own : String) → like_from false own "%" ≡ true
unfolding like_from
like_any String.[] = refl
like_any (String.◌∷◌ o own) = refl

pub like_from-IsLike : IsLike (like_from false)
unfolding like_from
like_from-IsLike = record {
  percent = like_any;
  escape = λ o c own p special same h. rw same h;
  same = λ o c own p plain same h. ground arith;
}
