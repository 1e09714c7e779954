-- ===== src/Enrollment/Pages/Start.antt =====
-- What the first page shows.
use forge_proxy.Base.{ℕ, ◌<◌, Bytes, codes, [], ◌∷◌, ◌++◌, ◌≡◌, refl, All, All-append, arith}
use forge_proxy.Net.Html.{escape_string, IsInert, escape_string-IsInert}
use forge_proxy.Net.Query.{
  query_escape, path_escape, query_unescape, query_unescape-query_escape, IsVisible,
  path_escape-IsVisible,
}
use forge_proxy.Enrollment
use forge_proxy.Enrollment.{Enrollment, Store, peek}
use forge_proxy.Enrollment.Pages.{shows, start_page, complete_url, login_url, started, handle_start}

complete_url-IsVisible :
    (auth_host token : Bytes)
    → All IsVisible auth_host
    → All (λ c. c < 256) token
    → All IsVisible (complete_url auth_host token)
unfolding complete_url
complete_url-IsVisible auth_host token h t =
    let origin = codes "https://" ++ auth_host in
    let path = origin ++ codes "/ssh/enroll/" in
    All-append IsVisible (path ++ path_escape token) (codes "/complete")
      (All-append IsVisible path (path_escape token)
        (All-append IsVisible origin (codes "/ssh/enroll/")
          (All-append IsVisible (codes "https://") auth_host (omega arith) h) (omega arith))
        (path_escape-IsVisible token t))
      (omega arith)

bytes_of : (s : Bytes) → All IsVisible s → All (λ c. c < 256) s
bytes_of [] h = tt
bytes_of (c ∷ s) (h, hs) = (omega (arith, h.1), bytes_of s hs)

-- For a good token the page shows its fingerprint and a link to the sign-in. Both are escaped, so
-- neither can end the element or the attribute that it stands in. For an AUTH_HOST of visible ASCII
-- characters, the sign-in reads from the link the address of the token's second page on that host, where
-- the token is escaped as a segment of the path, and the address has visible ASCII characters only.
pub handle_start-good :
    (auth_host token : Bytes) (now : ℕ) (s : Store) (e : Enrollment)
    → All IsVisible auth_host
    → All (λ c. c < 256) token
    → peek token now s ≡ Enrollment.Result.ok e
    → (link : Bytes) × (handle_start auth_host token now s
        ≡ shows 200 (
            start_page
              (escape_string e.fingerprint)
              (escape_string (codes "/auth/login?return_to=" ++ link))))
      × All IsInert (escape_string e.fingerprint)
      × All IsInert (escape_string (codes "/auth/login?return_to=" ++ link))
      × (query_unescape link
          ≡ codes "https://"
            ++ auth_host
            ++ codes "/ssh/enroll/"
            ++ path_escape token
            ++ codes "/complete")
      × All IsVisible (query_unescape link)
unfolding handle_start started login_url complete_url
handle_start-good auth_host token now s e h t good =
    let visible = complete_url-IsVisible auth_host token h t in
    let link = query_escape (complete_url auth_host token) in
    let read_back =
      query_unescape-query_escape (complete_url auth_host token)
        (bytes_of (complete_url auth_host token) visible) in
    (
      link,
      (rw good refl),
      escape_string-IsInert e.fingerprint,
      escape_string-IsInert (codes "/auth/login?return_to=" ++ link),
      read_back,
      rw read_back visible,
    )
