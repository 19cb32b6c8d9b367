-- ===== src/Catalog/Templates.antt =====
-- The entries of `Targets` in launcher/internal/catalog/catalog.go, from boot-sample to portal.
use egovframe_launcher.Base.{◌<>◌, [], ◌∷◌}
use egovframe_launcher.Catalog.Types.{Target, account, mvn, base, tier1}

-- boot-sample
unfoldable pub boot_sample : Target
boot_sample = record {
  id = "boot-sample";
  display_name = "부트 기반 심플 게시판 (Spring Boot)";
  category = "심플 게시판";
  repo_url = base <> "egovframe-boot-sample-java-config";
  branch = "";
  tier = tier1;
  prereqs = "git" ∷ "mvn" ∷ [];
  port = 8090;
  open_path = "/";
  build = (mvn ("-B" ∷ "-DskipTests" ∷ "package" ∷ [])) ∷ [];
  run = (mvn ("-B" ∷ "spring-boot:run" ∷ [])) ∷ [];
  note = "인프라 0. 라이브 데모 핵심.";
  deploy_type = "boot";
  backend_id = "";
  run_env = [];
  accounts = [];
}

-- web-sample
unfoldable pub web_sample : Target
web_sample = record {
  id = "web-sample";
  display_name = "심플 게시판 (XML 기반 · WAR)";
  category = "심플 게시판";
  repo_url = base <> "egovframe-web-sample";
  branch = "";
  tier = tier1;
  prereqs = "git" ∷ "mvn" ∷ [];
  port = 8091;
  open_path = "/";
  build = (mvn ("-B" ∷ "-DskipTests" ∷ "package" ∷ [])) ∷ [];
  run = [];
  note = "Jakarta EE 10. WAR → Tomcat 10.1+ 배포 가이드 참고.";
  deploy_type = "war";
  backend_id = "";
  run_env = [];
  accounts = [];
}

-- simple-backend
unfoldable pub simple_backend : Target
simple_backend = record {
  id = "simple-backend";
  display_name = "템플릿 백엔드 (Spring Boot)";
  category = "심플 홈페이지 세트";
  repo_url = base <> "egovframe-template-simple-backend";
  branch = "";
  tier = tier1;
  prereqs = "git" ∷ "mvn" ∷ [];
  port = 8092;
  open_path = "/";
  build = (mvn ("-B" ∷ "-DskipTests" ∷ "package" ∷ [])) ∷ [];
  run = (mvn ("-B" ∷ "spring-boot:run" ∷ [])) ∷ [];
  note = "DB 필요(docker-compose.yml). DB 미기동 시 부팅 실패 가능.";
  deploy_type = "boot";
  backend_id = "";
  run_env = [];
  accounts = (account "관리자" "admin" "Admin@1234") ∷ (account "일반사용자" "user" "User@1234") ∷ [];
}

-- simple-react
unfoldable pub simple_react : Target
simple_react = record {
  id = "simple-react";
  display_name = "템플릿 프론트엔드 (React · Vite)";
  category = "심플 홈페이지 세트";
  repo_url = base <> "egovframe-template-simple-react";
  branch = "";
  tier = tier1;
  prereqs = "git" ∷ "npm" ∷ [];
  port = 5173;
  open_path = "/";
  build = record { name = "npm"; args = "ci" ∷ []; dir = ""; port = 0 } ∷ [];
  run = record { name = "npm"; args = "run" ∷ "dev" ∷ []; dir = ""; port = 0 } ∷ [];
  note = "";
  deploy_type = "react";
  backend_id = "simple-backend";
  run_env = [];
  accounts = (account "관리자" "admin" "Admin@1234") ∷ (account "일반사용자" "user" "User@1234") ∷ [];
}

-- portal
unfoldable pub portal : Target
portal = record {
  id = "portal";
  display_name = "포털 사이트 템플릿 (WAR)";
  category = "일반 템플릿";
  repo_url = base <> "egovframe-portal-site-template";
  branch = "";
  tier = tier1;
  prereqs = "git" ∷ "mvn" ∷ [];
  port = 8093;
  open_path = "/";
  build = (mvn ("-B" ∷ "-DskipTests" ∷ "package" ∷ [])) ∷ [];
  run = [];
  note = "WAR. Tomcat 10.1+ 배포.";
  deploy_type = "war";
  backend_id = "";
  run_env = [];
  accounts = (account "관리자" "admin" "1") ∷ (account "회원1" "user1" "1") ∷ [];
}
