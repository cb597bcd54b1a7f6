-- ===== src/Tests/Downloads.antt =====
-- A context that is downloaded behind a redirect.
use docker_in_k8s.Common.{◌≡◌, refl, true, false, [], ◌∷◌}
use docker_in_k8s.Common.Int.{pos}
use docker_in_k8s.Text.{codes, ◌==◌}
use docker_in_k8s.Result.{ok}
use docker_in_k8s.Build.Remote.{
  Url, validate_remote_url, Response, Remote, check_redirects, download_remote_input,
}
use docker_in_k8s.Build.Remote.Laws.{IsDownload, download_remote_input-IsDownload}

abbrev example_url : Url
example_url = record { scheme = codes "https"; user = false; host = codes "example.org" }

abbrev response : Response
response = record {
  status = 200;
  content_length = pos 100;
  save = λ most. ok (codes "/tmp/dockube-remote-input-1", 100);
}

abbrev remote : Remote
remote = record {
  parse_url = λ value. ok example_url;
  get = λ url. (codes "https://example.org/v2/shop.tar" ∷ [], ok response);
  make_directory = ok (codes "/tmp/dockube-git-context-1");
  git = λ arguments. ok tt;
  sizes = λ root. ok (100 ∷ []);
  read_file = λ path. ok (codes "FROM scratch");
  is_utf8 = λ contents. true;
  write_dockerfile = λ contents. ok (codes "/tmp/dockube-text-context-1");
}

download_remote_input-IsDownload_example :
    IsDownload remote
      (codes "https://example.org/shop.tar")
      4096
      (codes "/tmp/dockube-remote-input-1")
download_remote_input-IsDownload_example =
    download_remote_input-IsDownload remote (codes "https://example.org/shop.tar") 4096
      (codes "/tmp/dockube-remote-input-1") accepted
  where
    accepted :
        download_remote_input remote (codes "https://example.org/shop.tar") 4096
        ≡ ok (codes "/tmp/dockube-remote-input-1")
    accepted = unfold download_remote_input validate_remote_url check_redirects ◌==◌ in refl
