-- ===== src/Publisher/Recreated.antt =====
-- What a review that was deleted and is created anew leaves of its comments.
use kenjutsu.Base.{Bool, true, false, ◌≡◌, string_eq, nat_eq}
use kenjutsu.Dict
use kenjutsu.Publisher.Github.{Request, post_comment}
use kenjutsu.Publisher.Keeps.{Keeps}

-- A request that makes a new comment.
abbrev pub is_new_comment : Request → Bool
is_new_comment (post_comment _ _ _ _ _ _) = true
is_new_comment _ = false

abbrev pub NotNew : Request → Type 0
NotNew request = is_new_comment request ≡ false
