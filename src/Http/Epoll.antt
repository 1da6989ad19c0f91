-- ===== src/Http/Epoll.antt =====
-- http/src/http_conn.cpp, setnoblock, addfd, removefd and modfd: the system calls that they make.
pub mod Armed
mod Tests
use my_web_server_cmake.Prelude.{Bool, true, false, ◌||◌, List, [], ◌∷◌, ◌++◌, ℤ}
use my_web_server_cmake.Http.Worker.{SocketCall}
use my_web_server_cmake.Http.Worker

-- The bits of `event.events` that the program sets.
pub record Events : Type 0 where
  pub epollin : Bool
  pub epollout : Bool
  pub epollhup : Bool
  pub epolloneshot : Bool

-- `fcntl_nonblock` sets the flags that F_GETFL has given, with O_NONBLOCK.
pub data SysCall : Type 0 where
  epoll_ctl_add epoll_ctl_mod : (fd : ℤ) → Events → SysCall
  epoll_ctl_del fcntl_nonblock close : (fd : ℤ) → SysCall

unfoldable pub setnoblock : ℤ → List SysCall
setnoblock fd = fcntl_nonblock fd ∷ []

-- The bits are added to `unset`, what happens to be in `event`, which is not initialised.
unfoldable pub addfd : (unset : Events) → ℤ → (oneshot : Bool) → List SysCall
unfolding setnoblock
addfd unset fd oneshot =
    epoll_ctl_add fd (record unset {
      epollin = true;
      epollhup = true;
      epolloneshot = unset.epolloneshot || oneshot;
    })
    ∷ setnoblock fd

unfoldable pub removefd : ℤ → List SysCall
removefd fd = epoll_ctl_del fd ∷ close fd ∷ []

-- `ev` is EPOLLIN or EPOLLOUT.
unfoldable pub modfd_to : ℤ → (epollin epollout : Bool) → List SysCall
modfd_to fd epollin epollout =
    epoll_ctl_mod fd
      (record { epollin = epollin; epollout = epollout; epollhup = true; epolloneshot = true })
    ∷ []

-- The system calls of a connection.
unfoldable pub sys_call : (unset : Events) → SocketCall → List SysCall
unfolding addfd removefd modfd_to
sys_call unset (SocketCall.addfd fd) = addfd unset fd true
sys_call unset (SocketCall.removefd fd) = removefd fd
sys_call unset (SocketCall.modfd_in fd) = modfd_to fd true false
sys_call unset (SocketCall.modfd_out fd) = modfd_to fd false true

unfoldable pub sys_calls : (unset : Events) → List SocketCall → List SysCall
unfolding sys_call
sys_calls unset [] = []
sys_calls unset (call ∷ rest) = sys_call unset call ++ sys_calls unset rest
