-- ===== src/Setup/Life/Leaving.antt =====
-- frontend/app/setup/page.tsx: which redirects still happen after the page was left.
use go_analyze.Setup.Life.{Life}
