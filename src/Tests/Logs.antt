-- ===== src/Tests/Logs.antt =====
-- The quota pass on a small directory.
use support_proxy.Base.{Bool, true, List, [], ◌∷◌, codes, All}
use support_proxy.Cleanup.{session_telem, LogFile, enforce_quota}
use support_proxy.Cleanup.Quota.{Evictable, enforce_quota-Evictable}

abbrev old_log : LogFile
old_log = record { name = codes "a.tlog"; date_dir = codes "d"; alloc = 600; mtime = 100 }

abbrev older_log : LogFile
older_log = record { name = codes "b.bin"; date_dir = codes "d"; alloc = 500; mtime = 50 }

abbrev recording : LogFile
recording = record { name = codes "a.v1.ts"; date_dir = codes "d"; alloc = 9000; mtime = 10 }

abbrev live_log : LogFile
live_log = record { name = codes "c.bin"; date_dir = codes "d"; alloc = 400; mtime = 990 }

abbrev files : List LogFile
files = old_log ∷ recording ∷ live_log ∷ older_log ∷ []

abbrev works : LogFile → Bool
works f = true

enforce_quota-Evictable_example :
    All (Evictable session_telem 1000 60) (enforce_quota works session_telem 1200 0 1000 60 files)
enforce_quota-Evictable_example = enforce_quota-Evictable works session_telem 1200 0 1000 60 files
