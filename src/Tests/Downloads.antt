-- ===== src/Tests/Downloads.antt =====
-- A download on a clock that stands still but for the pauses.
use tv_safety_cleaner.Prelude.{ℕ, suc, ◌+◌, ◌<>◌, ◌≡◌, true, none, some, [], ◌∷◌, arith}
use tv_safety_cleaner.Prelude.Json.{bool, str}
use tv_safety_cleaner.Exec.{ok}
use tv_safety_cleaner.Controller.Tasks.{queued}
use tv_safety_cleaner.Controller.Downloader.{Net, Downloads, poll_timeout, poll_from, poll}
use tv_safety_cleaner.Controller.Downloader.Storing.{download}
use tv_safety_cleaner.Controller.Downloader.Waiting.{Steady, poll-ends}
use tv_safety_cleaner.Controller.Downloader.Leftovers.{IsFor, Leaves, download-Leaves}
use tv_safety_cleaner.Tests.Data.{a_package, a_task, plain_lib}

-- The downloader answers at once; the archive comes in two chunks.
abbrev a_net : Net ℕ
a_net = record {
  show_json = λ _. "";
  fetch_json = λ _ clock. (
    ok (
        ("success", bool true)
        ∷ ("downloadUrl", str "https://online-apk-downloader.com/a-2.apk")
        ∷ []),
    clock,
  );
  open_url =
      λ _ clock. (ok (record { total = 300; chunks = 200 ∷ 100 ∷ []; broken = none }), clock);
  sleep = λ n clock. (ok tt, clock + n);
  clock = λ clock. clock;
  quote = λ s. s;
  parse_url =
      λ _. record { scheme = "https"; hostname = "online-apk-downloader.com"; name = "a-2.apk" };
  inspect = λ _ clock. (ok "v2", clock);
}

abbrev an_empty_folder : Downloads ℕ
an_empty_folder = record {
  outside = 7;
  tasks = (a_task, queued 7 a_task "download" a_package) ∷ [];
  files = [];
  now = 100;
}

a_net-Steady : Steady a_net
a_net-Steady = record { fetching = λ url w. omega arith; pausing = λ n w. omega arith }

poll-ends_example :
    poll_from a_net
      (suc poll_timeout)
      poll_timeout
      a_package
      ("https://dl.example&id=" <> a_package)
      a_task
      7
      0
      "No response"
      an_empty_folder
    ≡ some (poll a_net "https://dl.example" a_package a_task an_empty_folder)
poll-ends_example =
    poll-ends a_net a_net-Steady "https://dl.example" a_package a_task an_empty_folder

download-Leaves_example :
    Leaves a_net plain_lib
      (IsFor a_net plain_lib "https://dl.example" a_package a_task an_empty_folder)
      []
      (download a_net plain_lib "https://dl.example" a_package a_task an_empty_folder)
download-Leaves_example =
    download-Leaves a_net plain_lib "https://dl.example" a_package a_task an_empty_folder
