-- ===== src/Tasks/Notification/Sent.antt =====
-- What is posted to GitHub.
use cluster_deployer.Common.{
  ℕ, zero, suc, String, text_append, ◌≡◌, refl, sym, ◌∙◌, ap, subst, ◌≤◌, ◌<◌, ◌⊎◌, inl, inr, Bool,
  true, false, ◌&&◌, Option, none, some, length-append, ltb, arith, Bool-cases, ltb→lt,
}
use cluster_deployer.Common.Result.{ok, bind-ok, ok_injective}
use cluster_deployer.Tasks.Notification.{
  StatusPost, first_characters, text_length, use_description, or_value, status_post, post,
  is_posted, post_if_known, git_of, commit_of, notify_github_task,
}
use cluster_deployer.Util.Text.{codes}
use cluster_deployer.Util.Text.Laws.{codes-append}
use cluster_deployer.Value.{Value, null, str, truthy}
use cluster_deployer.Value.Access.{as_text, Access, get}

-- A message of at most 140 characters as it is, or the first 137 characters of a longer one and three dots.
abbrev pub Shortens : (message description : String) → Type 0
Shortens message description =
    ((text_length message ≤ 140) × (description ≡ message))
    ⊎ ((140 < text_length message)
        × (text_length description ≡ 140)
        × (description ≡ text_append (first_characters 137 message) "..."))

text_length-first_characters :
    (n : ℕ) (s : String) → n ≤ text_length s → text_length (first_characters n s) ≡ n
text_length-first_characters zero s h = refl
text_length-first_characters (suc n) String.[] h = omega arith
text_length-first_characters (suc n) (String.◌∷◌ c s) h =
    ap suc (text_length-first_characters n s (omega arith))

use_description-Shortens : (s : String) → Shortens s (use_description s)
unfolding use_description
use_description-Shortens s = elim (Bool-cases (ltb 140 (text_length s))) [
  | inl q ↦
      let long : 140 < text_length s = ltb→lt 140 (text_length s) q in
      let enough : 137 ≤ text_length s = omega arith in
      rw q (
        inr (
          long,
          rw
              (
                codes-append (first_characters 137 s) "...",
                length-append (codes (first_characters 137 s)) (codes "..."),
                text_length-first_characters 137 s enough,
              )
              refl,
          refl,
        ))
  | inr q ↦ rw q (inl (ground arith, refl))
]

-- An entry that is there and not empty.
abbrev pub IsGiven : String → Value → Type 0
IsGiven k git = (v : Value) × (get k null git ≡ ok v) × (truthy v ≡ true)

both_true : (a b : Bool) → (a && b) ≡ true → (a ≡ true) × (b ≡ true)
both_true true b h = (refl, h)
both_true false b h = cc

no_post : {s : StatusPost} → Path (Access (Option StatusPost)) (ok none) (ok (some s)) → ⊥
no_post h = cc

as_text-str : (v : Value) (s : String) → as_text v ≡ ok s → v ≡ str s
as_text-str (str t) s h = ap str (ok_injective h)
as_text-str _ s h = cc

some_inj : {a b : StatusPost} → Path (Option StatusPost) (some a) (some b) → a ≡ b
some_inj h = cc

commit_of-get :
    (git owner repo commit : Value)
    → commit_of git ≡ ok (owner, repo, commit)
    → (get "owner" null git ≡ ok owner)
      × (get "repo" null git ≡ ok repo)
      × (get "commit" null git ≡ ok commit)
commit_of-get git owner repo commit h =
    let (o, a, h1) = bind-ok (get "owner" null git) _ (owner, repo, commit) h in
    let (r, b, h2) = bind-ok (get "repo" null git) _ (owner, repo, commit) h1 in
    let (c, d, h3) = bind-ok (get "commit" null git) _ (owner, repo, commit) h2 in
    let same = ok_injective h3 in
    (
      a ∙ ap (λ (t : Value × Value × Value). ok t.0) same,
      b ∙ ap (λ (t : Value × Value × Value). ok t.1) same,
      d ∙ ap (λ (t : Value × Value × Value). ok t.2) same,
    )

module _ (text_of : Value → String) (default_github_token : Value) where
  -- what the post says of the message
  post-Shortens :
      (notification : Value) (obj_text : String) (ctx : Value) (level : ℕ)
      (api_url owner repo commit token : Value) (s : StatusPost)
      → post text_of default_github_token notification obj_text ctx level
          (status_post text_of default_github_token api_url owner repo commit token)
        ≡ ok (some s)
      → (message : String) × (get "message" (str obj_text) notification ≡ ok (str message))
        × Shortens message s.description
        × (s.token ≡ token)
  post-Shortens notification obj_text ctx level api_url owner repo commit token s h =
      let (m, a, h1) = bind-ok (get "message" (str obj_text) notification) _ (some s) h in
      let (desc, b, h2) = bind-ok (as_text m) _ (some s) h1 in
      let (c, _, h3) = bind-ok (get "cluster" (str "local") ctx) _ (some s) h2 in
      let (cluster, _, h4) = bind-ok (as_text c) _ (some s) h3 in
      let same = some_inj (ok_injective h4) in
      (
        desc,
        a ∙ ap ok (as_text-str m desc b),
        subst (λ u. Shortens desc u.description) same (use_description-Shortens desc),
        sym (ap (λ u. u.token) same),
      )

  post_if_known-posts :
      (notification : Value) (obj_text : String) (ctx : Value) (level : ℕ)
      (api_url owner repo commit token git_type : Value) (s : StatusPost)
      → post_if_known text_of default_github_token notification obj_text ctx level api_url owner
          repo commit token git_type
        ≡ ok (some s)
      → (truthy owner ≡ true)
        × (truthy repo ≡ true)
        × (truthy commit ≡ true)
        × (truthy token ≡ true)
        × ((message : String) × (get "message" (str obj_text) notification ≡ ok (str message))
            × Shortens message s.description
            × (s.token ≡ token))
  post_if_known-posts notification obj_text ctx level api_url owner repo commit token git_type s h =
      elim (Bool-cases (is_posted text_of default_github_token owner repo commit token git_type)) [
        | inr q ↦ absurd (no_post (rw (q, post_if_known) at h))
        | inl q ↦
            let (a, q1) = both_true (truthy owner) _ q in
            let (b, q2) = both_true (truthy repo) _ q1 in
            let (c, q3) = both_true (truthy commit) _ q2 in
            let (d, _) = both_true (truthy token) _ q3 in
            (
              a,
              b,
              c,
              d,
              post-Shortens notification obj_text ctx level api_url owner repo commit token s
                  (rw (q, post_if_known) at h),
            )
      ]

  -- A post to GitHub has a token, and the context names an owner, a repository and a commit. Its
  -- description is the message of the notification, or its text where it has none: as it is up to 140
  -- characters, and else its first 137 characters and three dots, 140 in all.
  pub notify_github_posts :
      (notification : Value) (obj_text : String) (ctx : Value) (level : ℕ) (config : Value)
      (s : StatusPost)
      → notify_github_task text_of default_github_token notification obj_text ctx level config
        ≡ ok (some s)
      → ((git : Value) × (git_of ctx ≡ ok git)
          × IsGiven "owner" git
          × IsGiven "repo" git
          × IsGiven "commit" git)
        × (truthy s.token ≡ true)
        × ((message : String) × (get "message" (str obj_text) notification ≡ ok (str message))
            × Shortens message s.description)
  unfolding notify_github_task
  notify_github_posts notification obj_text ctx level config s h =
      let (url, _, h1) = bind-ok (get "url" null config) _ (some s) h in
      let (git, a, h2) = bind-ok (git_of ctx) _ (some s) h1 in
      let ((owner, repo, commit), b, h3) = bind-ok (commit_of git) _ (some s) h2 in
      let (git_type, _, h4) = bind-ok (get "type" (str "github") git) _ (some s) h3 in
      let (own_token, _, h5) = bind-ok (get "token" null config) _ (some s) h4 in
      let (o, r, c) = commit_of-get git owner repo commit b in
      let (to, tr, tc, tt', said) =
        post_if_known-posts notification obj_text ctx level
          (or_value url (str "https://api.github.com")) owner repo commit
          (or_value own_token default_github_token) git_type s h5 in
      let (message, m, short, token) = said in
      (
        (git, a, (owner, o, to), (repo, r, tr), (commit, c, tc)),
        ap truthy token ∙ tt',
        (message, m, short),
      )
