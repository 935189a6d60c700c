-- ===== src/Client/Installer/Unverified.antt =====
-- client/installer.py: a wheel from the cloud is given to pip without a test of its digest.
use cpip.Common.{◌≡◌, refl, ◌∙◌, ap, String, false, Option, none, some, [], ◌∷◌, ◌++◌, arith}
use cpip.Files.{Contents, FilePath, text, Result, ok, err}
use cpip.Client.Resolver.{PackageResolution}
use cpip.Client.Installer.World.{
  World, Fetched, Outside, Attempt, run_process, pip_install, put_file, download_path,
  download_wheel,
}
use cpip.Client.Installer.Strategies.{
  keep_wheel, known_url, known_hash, url_of, pip_stored, store_and_pip, install_cloud_wheel,
}

pip_stored-ran :
    (o : Outside) (path : FilePath) (r : Result String) (dest : String) (w : World)
    → r ≡ ok dest
    → (pip_stored o path (r, w)).1.ran ≡ w.ran ++ pip_install o (text path) ∷ []
unfolding pip_stored run_process
pip_stored-ran o path (ok d) dest w e = refl
pip_stored-ran o path (err x) dest w e = absurd (cc e)

download_wheel-complete :
    (o : Outside) (url : String) (c : Contents) (w : World)
    → o.fetch url ≡ Fetched.complete c
    → download_wheel o url w ≡ (some (download_path w url), put_file (download_path w url) c w)
unfolding download_wheel
download_wheel-complete o url c w f = ground (arith, f)

url_of-known :
    (o : Outside) (pkg version url : String) (res : PackageResolution)
    → known_url res ≡ some url
    → url_of o pkg version res ≡ some url
url_of-known o pkg version url res u = ground (arith, u)

install_cloud_wheel-url :
    (o : Outside) (pkg version url : String) (res : PackageResolution) (w : World)
    → known_url res ≡ some url
    → install_cloud_wheel o pkg version res w
      ≡ store_and_pip o pkg version res (download_wheel o url w)
unfolding install_cloud_wheel
install_cloud_wheel-url o pkg version url res w u =
    ap
      (λ (x : Option String). elim x [
        | none ↦ (Attempt.answered false, w)
        | some v ↦ store_and_pip o pkg version res (download_wheel o v w)
      ])
      (url_of-known o pkg version url res u)

-- Whatever digest the registry gives for a wheel, and whatever is downloaded from its address, pip is
-- run on the downloaded file if it can be recorded in the cache.
pub install_cloud_wheel_unverified :
    (o : Outside) (pkg version url dest : String) (res : PackageResolution) (c : Contents)
    (w : World)
    → known_url res ≡ some url
    → o.fetch url ≡ Fetched.complete c
    → (keep_wheel o pkg version
        (download_path w url)
        (known_hash res)
        (put_file (download_path w url) c w)).0
      ≡ ok dest
    → (install_cloud_wheel o pkg version res w).1.ran
      ≡ w.ran ++ pip_install o (text (download_path w url)) ∷ []
unfolding store_and_pip keep_wheel
install_cloud_wheel_unverified o pkg version url dest res c w u f k =
    ap (λ (r : Attempt × World). r.1.ran) (install_cloud_wheel-url o pkg version url res w u)
    ∙ ap (λ (r : Option FilePath × World). (store_and_pip o pkg version res r).1.ran)
        (download_wheel-complete o url c w f)
    ∙ pip_stored-ran o (download_path w url)
        (keep_wheel o pkg version (download_path w url) (known_hash res)
          (put_file (download_path w url) c w)).0
        dest
        (keep_wheel o pkg version (download_path w url) (known_hash res)
          (put_file (download_path w url) c w)).1
        k
